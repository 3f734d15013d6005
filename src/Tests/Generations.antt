-- ===== src/Tests/Generations.antt =====
-- Two calls of generate: the first times out, and the second gives up while the first worker still
-- runs.
use ai_virtual_try_on.Prelude.{ℕ, ◌+◌, ◌≡◌, refl, true, false, some, [], ◌∷◌}
use ai_virtual_try_on.Job.{pos}
use ai_virtual_try_on.TryOnService.{TryOnRequest, busy, timed_out, generated}
use ai_virtual_try_on.SelfHosted.{
  Engine, Call, joining, ended, in_pipeline, released, exited, acquire, give_up, time_out, finish,
  join, move, entered, Provider, Reach, generate, moves, new, later,
}
use ai_virtual_try_on.SelfHosted.Mutex.{Guarded, one_generation}

-- Images are numbers, and the pipeline adds them.
abbrev engine : Engine ℕ
engine = record {
  pipeline = λ c. some ((c.person_image + c.garment_image) ∷ []);
  busy_message = "busy";
  timeout_message = "timeout";
}

abbrev asked : ℕ → TryOnRequest ℕ
asked n = record {
  person_image = n;
  garment_image = 1;
  category = "tops";
  garment_photo_type = "model";
  num_timesteps = 30;
  guidance_scale = 250;
  seed = pos 42;
}

abbrev first : Call ℕ
first = record (entered (asked 1)) { caller = joining; worker = in_pipeline }

abbrev abandoned : Call ℕ
abandoned = record first { caller = ended (timed_out "timeout") }

abbrev turned_away : Call ℕ
turned_away = record (entered (asked 2)) { caller = ended (busy "busy") }

abbrev stuck : Provider ℕ
stuck = record { locked = true; calls = turned_away ∷ abandoned ∷ [] }

abbrev to_stuck : Reach engine stuck
to_stuck =
    later
      (later
        (later
          (later (later new (generate (asked 1) false []))
            (moves acquire false true (entered (asked 1)) first [] [] refl))
          (generate (asked 2) true (first ∷ [])))
        (moves time_out true true first abandoned (entered (asked 2) ∷ []) [] refl))
      (moves give_up true true (entered (asked 2)) turned_away [] (abandoned ∷ []) refl)

one_generation_example : Guarded engine stuck
one_generation_example = one_generation engine to_stuck

-- The abandoned worker frees the lock when it ends, and a joined one brings its image.
worker_frees_lock :
    move engine finish true abandoned
    ≡ some (false, record abandoned { worker = released (some (2 ∷ [])) })
worker_frees_lock = refl

joined_brings_image :
    move engine join false (record first { worker = exited (some (2 ∷ [])) })
    ≡ some (false, record first { caller = ended (generated 2); worker = exited (some (2 ∷ [])) })
joined_brings_image = refl
