-- ===== src/Ghws/Laws.antt =====
-- About one cycle of internal/services/ghws/subscriber.go, and about failing cycles.
use live_actions.Base.{
  ℕ, zero, suc, ◌^◌, ◌≡◌, ◌⊎◌, ◌==◌, Option, none, some, refl, ap, ◌∙◌, String, Bool, true, false,
  List, [], ◌∷◌, ◌++◌, inl, inr, count, arith, Bool-cases, string_eq,
}
use Prim.Native.Nat.{min}
use mathlib.Core.List.{append-nil}
use live_actions.Models.{Bytes}
use live_actions.Webhook.{Response}
use live_actions.Webhook.Encoding.{append_text}
use live_actions.Ghws.{
  Config, HookResponse, DeleteRequest, Frame, Session, Effect, create_hook, dial, activate_hook,
  close, deletes, delete_hook, bearer, counted, ack, ws_outcome, with_hook, from_creation,
  read_loop, run_once, next_backoff, waits, run,
}

-- How many cycles fail before the first that does not.
abbrev pub failing : List Bool → ℕ
failing [] = 0
failing (false ∷ cycles) = 0
failing (true ∷ cycles) = suc (failing cycles)

-- 2 ^ n, 2 ^ (n + 1), … in seconds, each at most a minute.
abbrev pub doubling : ℕ → ℕ → List ℕ
doubling n zero = []
doubling n (suc m) = min (2 ^ n) 60 ∷ doubling (suc n) m

next_backoff-min : (n : ℕ) → next_backoff (min (2 ^ n) 60) ≡ min (2 ^ suc n) 60
unfolding next_backoff
next_backoff-min n = ground arith

waits-doubling :
    (n : ℕ) (cycles : List Bool) → waits (min (2 ^ n) 60) cycles ≡ doubling n (failing cycles)
unfolding waits
waits-doubling n [] = refl
waits-doubling n (false ∷ cycles) = refl
waits-doubling n (true ∷ cycles) =
    ap (λ w. min (2 ^ n) 60 ∷ w)
      (ap (λ b. waits b cycles) (next_backoff-min n) ∙ waits-doubling (suc n) cycles)

-- Between failing cycles Run waits 1, 2, 4, and so on seconds, each at most 60, and waits no more
-- after a cycle that does not fail.
pub run-doubling : (cycles : List Bool) → run cycles ≡ doubling 0 (failing cycles)
unfolding run
run-doubling cycles = waits-doubling 0 cycles

abbrev is_delete : Effect → Bool
is_delete (deletes request) = true
is_delete _ = false

abbrev pub deletions : List Effect → ℕ
deletions = count is_delete

-- What a cycle deletes: nothing where createHook fails, or where the answer to the creation had no
-- URL, and otherwise the hook at its URL, once and as the last effect.
abbrev pub Deletes : Config → Option HookResponse → List Effect → Type 0
Deletes c none effects = deletions effects ≡ 0
Deletes c (some hook) effects =
    ((hook.url ≡ "") × (deletions effects ≡ 0))
    ⊎ (¬ (hook.url ≡ "")
        × ((before : List Effect) × (request : DeleteRequest) × (request.url ≡ hook.url)
            × (effects ≡ before ++ deletes request ∷ [])
            × (deletions before ≡ 0)))

module _ {S : Type 0} (c : Config) (ingest : String → String → Bytes → S → Response × S) where
  abbrev Cleans : HookResponse → List Effect → Type 0
  Cleans hook effects =
      (before : List Effect) × (effects ≡ before ++ delete_hook c hook) × (deletions before ≡ 0)

  Cleans-Deletes :
      (hook : HookResponse) (effects : List Effect)
      → Cleans hook effects
      → Deletes c (some hook) effects
  unfolding delete_hook
  Cleans-Deletes hook effects (before, eq, none') = elim (Bool-cases (hook.url == "")) [
    | inl e ↦
        inl ((string_eq.beq_iff hook.url "").0 e, ground (arith, eq, none', append-nil before))
    | inr e ↦ inr (
      (λ empty. absurd (ground (arith, (string_eq.beq_iff hook.url "").1 empty))),
      (
        before,
        record { url = hook.url; authorization = bearer c },
        refl,
        ground (arith, eq),
        none',
      ),
    )
  ]

  read_loop-Cleans :
      (hook : HookResponse) (frames : List Frame) (normal : Bool) (s : S)
      → Cleans hook (read_loop c ingest hook frames normal s).effects
  unfolding read_loop
  read_loop-Cleans hook [] normal s = (close ∷ [], ground arith, refl)
  read_loop-Cleans hook (f ∷ frames) normal s = elim (Bool-cases f.ack_sent) [
    | inl e ↦
        let r = ingest f.event f.delivery f.body s in
        let (before, eq, none') = read_loop-Cleans hook frames normal r.1 in
        let seen = counted f.event (append_text "ws_" (ws_outcome r.0.status)) in
        rw e ((seen ∷ ack r.0.status ∷ before, ap (λ es. seen ∷ ack r.0.status ∷ es) eq, none'))
    | inr e ↦
        let r = ingest f.event f.delivery f.body s in
        rw e
          ((counted f.event (append_text "ws_" (ws_outcome r.0.status)) ∷ close ∷ [], refl, refl))
  ]

  with_hook-Cleans :
      (hook : HookResponse) (o : Session) (s : S)
      → Cleans hook (create_hook ∷ (with_hook c ingest hook o s).effects)
  unfolding run_once
  with_hook-Cleans hook o s = elim (Bool-cases o.dialed) [
    | inr d ↦ rw d ((create_hook ∷ dial ∷ [], refl, refl))
    | inl d ↦ elim (Bool-cases o.activated) [
      | inr a ↦ rw (d, a) ((create_hook ∷ dial ∷ activate_hook ∷ close ∷ [], refl, refl))
      | inl a ↦
          let (before, eq, none') = read_loop-Cleans hook o.frames o.normal s in
          rw (d, a)
            ((
              create_hook ∷ dial ∷ activate_hook ∷ before,
              ap (λ es. create_hook ∷ dial ∷ activate_hook ∷ es) eq,
              none',
            ))
    ]
  ]

  creation-Deletes :
      (created : Option HookResponse) (o : Session) (s : S)
      → Deletes c created (create_hook ∷ (from_creation c ingest created o s).effects)
  creation-Deletes none o s = refl
  creation-Deletes (some hook) o s = Cleans-Deletes hook _ (with_hook-Cleans hook o s)

  -- A cycle whose createHook returns a hook with a URL sends one DELETE for that URL, as its last
  -- effect, however it ends; one whose createHook fails, or whose hook has no URL, sends none.
  pub run_once-Deletes : (o : Session) (s : S) → Deletes c o.hook (run_once c ingest o s).effects
  unfolding run_once
  run_once-Deletes o s = creation-Deletes o.hook o s

-- What the acknowledgements of a cycle say.
abbrev pub acks : List Effect → List ℕ
acks [] = []
acks (ack status ∷ effects) = status ∷ acks effects
acks (_ ∷ effects) = acks effects

module _ {S : Type 0} (ingest : String → String → Bytes → S → Response × S) where
  abbrev answered : Response × S → (S → List ℕ × S) → List ℕ × S
  answered (r, s) rest = (r.status ∷ (rest s).0, (rest s).1)

  -- The ingester run over all frames, and its answers.
  abbrev pub ingest_all : List Frame → S → List ℕ × S
  ingest_all [] s = ([], s)
  ingest_all (f ∷ frames) s = answered (ingest f.event f.delivery f.body s) (ingest_all frames)

abbrev pub AllSent : List Frame → Type 0
AllSent [] = Unit
AllSent (f ∷ frames) = (f.ack_sent ≡ true) × AllSent frames

module _ {S : Type 0} (c : Config) (ingest : String → String → Bytes → S → Response × S) where
  read_loop-acks :
      (hook : HookResponse) (frames : List Frame) (normal : Bool) (s : S)
      → AllSent frames
      → (acks (read_loop c ingest hook frames normal s).effects ≡ (ingest_all ingest frames s).0)
        × ((read_loop c ingest hook frames normal s).state ≡ (ingest_all ingest frames s).1)
  unfolding read_loop delete_hook
  read_loop-acks hook [] normal s sent = ground arith
  read_loop-acks hook (f ∷ frames) normal s sent = elim (Bool-cases f.ack_sent) [
    | inr e ↦ absurd (cc)
    | inl e ↦
        let rest =
          read_loop-acks hook frames normal (ingest f.event f.delivery f.body s).1 sent.1 in
        rw e (
          (
            ap (λ statuses. (ingest f.event f.delivery f.body s).0.status ∷ statuses) rest.0,
            rest.1,
          ))
  ]

  -- In a cycle that connects and whose acknowledgements can be sent, the frames are ingested in
  -- order, each once, and acknowledged with the status of their own answers.
  pub run_once-acks :
      (o : Session) (s : S) (hook : HookResponse)
      → o.hook ≡ some hook
      → o.dialed ≡ true
      → o.activated ≡ true
      → AllSent o.frames
      → (acks (run_once c ingest o s).effects ≡ (ingest_all ingest o.frames s).0)
        × ((run_once c ingest o s).state ≡ (ingest_all ingest o.frames s).1)
  unfolding run_once
  run_once-acks o s hook h d a sent = rw (h, d, a) (read_loop-acks hook o.frames o.normal s sent)
