-- ===== src/SelfHosted/Mutex.antt =====
-- One generation at a time, also across timeouts, and to each caller the result of its own worker.
use ai_virtual_try_on.Prelude.{
  ℕ, ◌≡◌, ◌≤◌, ◌+◌, refl, ap, subst, Bool, true, false, Option, none, some, List, [], ◌∷◌, ◌++◌,
  All, arith,
}
use ai_virtual_try_on.TryOnService.{TryOnRequest, Outcome, generated, busy, timed_out, crashed}
use ai_virtual_try_on.SelfHosted.{
  Engine, Box, Caller, waiting, joining, ended, Worker, unstarted, in_pipeline, released, exited,
  Call, Move, acquire, give_up, finish, exit, time_out, join, answer_of, run_inference, move,
  Provider, Step, generate, moves, Reach, new, later,
}

abbrev pub infers : {Image : Type 0} → Worker Image → ℕ
infers unstarted = 0
infers in_pipeline = 1
infers (released box) = 0
infers (exited box) = 0

abbrev pub bit : Bool → ℕ
bit true = 1
bit false = 0

abbrev pub inferring : {Image : Type 0} → List (Call Image) → ℕ
inferring [] = 0
inferring (c ∷ calls) = infers c.worker + inferring calls

module _ {Image : Type 0} (engine : Engine Image) where
  -- A started worker whose box, once it is filled, holds what the pipeline gives for the request.
  abbrev pub Started : TryOnRequest Image → Worker Image → Type 0
  Started r unstarted = false ≡ true
  Started r in_pipeline = Unit
  Started r (released box) = box ≡ run_inference engine r
  Started r (exited box) = box ≡ run_inference engine r

  abbrev pub Answered : TryOnRequest Image → Worker Image → Outcome Image → Type 0
  Answered r w (generated image) =
      (w ≡ exited (run_inference engine r)) × (generated image ≡ answer_of (run_inference engine r))
  Answered r w crashed =
      (w ≡ exited (run_inference engine r)) × (crashed ≡ answer_of (run_inference engine r))
  Answered r w (busy message) = (w ≡ unstarted) × (message ≡ engine.busy_message)
  Answered r w (timed_out message) = Started r w × (message ≡ engine.timeout_message)

  abbrev pub FitsAt : TryOnRequest Image → Worker Image → Caller Image → Type 0
  FitsAt r w waiting = w ≡ unstarted
  FitsAt r w joining = Started r w
  FitsAt r w (ended o) = Answered r w o

  abbrev pub Fits : Call Image → Type 0
  Fits c = FitsAt c.request c.worker c.caller

  -- A move keeps the calls right and moves the lock with the worker.
  abbrev pub Keeps : Bool → Call Image → Option (Bool × Call Image) → Type 0
  Keeps locked c none = Unit
  Keeps locked c (some (locked', c')) =
      (bit locked' + infers c.worker ≡ bit locked + infers c'.worker) × Fits c'

  finished :
      (r : TryOnRequest Image) (caller : Caller Image)
      → FitsAt r in_pipeline caller
      → FitsAt r (released (run_inference engine r)) caller
  finished r waiting f = absurd (cc)
  finished r joining f = refl
  finished r (ended (generated image)) f = absurd (cc)
  finished r (ended (busy message)) f = absurd (cc)
  finished r (ended (timed_out message)) f = (refl, f.1)
  finished r (ended crashed) f = absurd (cc)

  gone :
      (r : TryOnRequest Image) (caller : Caller Image) (box : Box Image)
      → FitsAt r (released box) caller
      → FitsAt r (exited box) caller
  gone r waiting box f = absurd (cc)
  gone r joining box f = f
  gone r (ended (generated image)) box f = absurd (cc)
  gone r (ended (busy message)) box f = absurd (cc)
  gone r (ended (timed_out message)) box f = f
  gone r (ended crashed) box f = absurd (cc)

  answered :
      (r : TryOnRequest Image) (box : Box Image)
      → box ≡ run_inference engine r
      → Answered r (exited box) (answer_of box)
  answered r none f = (ap exited f, ap answer_of f)
  answered r (some []) f = (ap exited f, ap answer_of f)
  answered r (some (image ∷ rest)) f = (ap exited f, ap answer_of f)

  timed_out_fits :
      (r : TryOnRequest Image) (w : Worker Image) (locked : Bool)
      → Started r w
      → Keeps locked
          (record { request = r; caller = joining; worker = w })
          (move engine time_out locked (record { request = r; caller = joining; worker = w }))
  timed_out_fits r unstarted locked f = tt
  timed_out_fits r in_pipeline locked f = (refl, (tt, refl))
  timed_out_fits r (released box) locked f = (refl, (f, refl))
  timed_out_fits r (exited box) locked f = tt

  held : (locked : Bool) → 1 ≤ bit locked → 1 ≡ bit locked + 0
  held true below = refl
  held false below = absurd (omega arith)

  move-Keeps :
      (m : Move) (locked : Bool) (r : TryOnRequest Image) (caller : Caller Image) (w : Worker Image)
      → infers w ≤ bit locked
      → FitsAt r w caller
      → Keeps locked
          (record { request = r; caller = caller; worker = w })
          (move engine m locked (record { request = r; caller = caller; worker = w }))
  move-Keeps acquire false r waiting w below f = (rw f refl, tt)
  move-Keeps acquire true r waiting w below f = tt
  move-Keeps acquire locked r joining w below f = tt
  move-Keeps acquire locked r (ended o) w below f = tt
  move-Keeps give_up false r waiting w below f = tt
  move-Keeps give_up true r waiting w below f = (refl, (f, refl))
  move-Keeps give_up locked r joining w below f = tt
  move-Keeps give_up locked r (ended o) w below f = tt
  move-Keeps finish locked r caller unstarted below f = tt
  move-Keeps finish locked r caller in_pipeline below f = (held locked below, finished r caller f)
  move-Keeps finish locked r caller (released box) below f = tt
  move-Keeps finish locked r caller (exited box) below f = tt
  move-Keeps exit locked r caller unstarted below f = tt
  move-Keeps exit locked r caller in_pipeline below f = tt
  move-Keeps exit locked r caller (released box) below f = (refl, gone r caller box f)
  move-Keeps exit locked r caller (exited box) below f = tt
  move-Keeps time_out locked r waiting w below f = tt
  move-Keeps time_out locked r joining w below f = timed_out_fits r w locked f
  move-Keeps time_out locked r (ended o) w below f = tt
  move-Keeps join locked r waiting w below f = tt
  move-Keeps join locked r joining unstarted below f = tt
  move-Keeps join locked r joining in_pipeline below f = tt
  move-Keeps join locked r joining (released box) below f = tt
  move-Keeps join locked r joining (exited box) below f = (refl, answered r box f)
  move-Keeps join locked r (ended o) w below f = tt

  inferring-append :
      (before after : List (Call Image))
      → inferring (before ++ after) ≡ inferring before + inferring after
  inferring-append [] after = omega arith
  inferring-append (c ∷ before) after = omega (arith, inferring-append before after)

  All-middle :
      (c : Call Image) (before after : List (Call Image)) → All Fits (before ++ c ∷ after) → Fits c
  All-middle c [] after fits = fits.0
  All-middle c (x ∷ before) after fits = All-middle c before after fits.1

  All-replaced :
      (c c' : Call Image) (before after : List (Call Image))
      → All Fits (before ++ c ∷ after)
      → Fits c'
      → All Fits (before ++ c' ∷ after)
  All-replaced c c' [] after fits f = (f, fits.1)
  All-replaced c c' (x ∷ before) after fits f = (fits.0, All-replaced c c' before after fits.1 f)

  -- The provider's lock counts the workers in the pipeline, and every call is right.
  abbrev pub Guarded : Provider Image → Type 0
  Guarded p = (inferring p.calls ≡ bit p.locked) × All Fits p.calls

  Step-Guarded : {s t : Provider Image} → Step engine s t → Guarded s → Guarded t
  Step-Guarded (generate request locked calls) g = (omega (arith, g.0), (refl, g.1))
  Step-Guarded (moves m locked locked' c c' before after e) g =
      let below : infers c.worker ≤ bit locked =
        omega (arith, g.0, inferring-append before (c ∷ after)) in
      let kept : Keeps locked c (some (locked', c')) =
        subst (λ o. Keeps locked c o) e
          (move-Keeps m locked c.request c.caller c.worker below (All-middle c before after g.1)) in
      (
        omega (
          arith,
          g.0,
          kept.0,
          inferring-append before (c ∷ after),
          inferring-append before (c' ∷ after),
        ),
        All-replaced c c' before after g.1 kept.1,
      )

  -- In whatever order calls of generate come, take the lock, finish and time out: the lock is held
  -- exactly while one worker is in the pipeline, and no two ever are, not even after a timeout; and a
  -- call that ended with an image or an error has the answer of the pipeline to its own request, from
  -- a worker that is dead, one that ended busy never started a worker.
  pub one_generation : {s : Provider Image} → Reach engine s → Guarded s
  one_generation new = (refl, tt)
  one_generation (later r step) = Step-Guarded step (one_generation r)
