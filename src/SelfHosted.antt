-- ===== src/SelfHosted.antt =====
-- backend/app/providers/selfhosted.py: calls of SelfHostedVTONProvider.generate by several threads,
-- as moves of one call at a time, interleaved in any order. The pipeline is an argument, and so are
-- the messages, which hold the configured seconds. A timeout may expire whenever its condition allows
-- it; no clock is modelled.
pub mod Mutex
use mathlib.Core.Option
use ai_virtual_try_on.Prelude.{
  ℕ, ◌≡◌, String, Bool, true, false, Option, none, some, List, [], ◌∷◌, ◌++◌, if◌then◌else◌,
}
use ai_virtual_try_on.Job.{Seed}
use ai_virtual_try_on.TryOnService.{TryOnRequest, Outcome, generated, busy, timed_out, crashed}

-- The arguments of `self._pipeline`.
pub record PipelineCall (Image : Type 0) : Type 0 where
  pub person_image : Image
  pub garment_image : Image
  pub category : String
  pub garment_photo_type : String
  pub segmentation_free : Bool
  pub num_timesteps : ℕ
  pub guidance_scale : ℕ
  pub seed : Seed

-- The pipeline raises or gives a list of images.
pub record Engine (Image : Type 0) : Type 0 where
  pub pipeline : PipelineCall Image → Option (List Image)
  pub busy_message : String
  pub timeout_message : String

-- What `result_box` holds: the error, or the images of the output.
abbrev pub Box : Type 0 → Type 0
Box Image = Option (List Image)

-- The thread that called generate: it waits for the lock, joins its worker, or has its answer.
pub data Caller (Image : Type 0) : Type 0 where
  waiting : Caller Image
  joining : Caller Image
  ended : Outcome Image → Caller Image

-- The worker thread: not started, in the pipeline, past the release of the lock, or dead.
pub data Worker (Image : Type 0) : Type 0 where
  unstarted : Worker Image
  in_pipeline : Worker Image
  released : Box Image → Worker Image
  exited : Box Image → Worker Image

pub record Call (Image : Type 0) : Type 0 where
  pub request : TryOnRequest Image
  pub caller : Caller Image
  pub worker : Worker Image

pub data Move : Type 0 where
  acquire give_up finish exit time_out join : Move

module _ {Image : Type 0} where
  abbrev pub pipeline_call : TryOnRequest Image → PipelineCall Image
  pipeline_call request = record {
    person_image = request.person_image;
    garment_image = request.garment_image;
    category = request.category;
    garment_photo_type = request.garment_photo_type;
    segmentation_free = false;
    num_timesteps = request.num_timesteps;
    guidance_scale = request.guidance_scale;
    seed = request.seed;
  }

  -- `result_box["error"]` is raised again, and `images[0]` raises on no image.
  abbrev pub answer_of : Box Image → Outcome Image
  answer_of none = crashed
  answer_of (some []) = crashed
  answer_of (some (image ∷ rest)) = generated image

  abbrev pub is_alive : Worker Image → Bool
  is_alive unstarted = false
  is_alive in_pipeline = true
  is_alive (released box) = true
  is_alive (exited box) = false

  module _ (engine : Engine Image) where
    abbrev pub run_inference : TryOnRequest Image → Box Image
    run_inference request = engine.pipeline (pipeline_call request)

    -- `self._lock.acquire(timeout=...)` of a waiting caller, and the start of its worker.
    abbrev pub acquire_lock : Bool → Call Image → Caller Image → Option (Bool × Call Image)
    acquire_lock locked c waiting =
        if locked then none else some (true, record c { caller = joining; worker = in_pipeline })
    acquire_lock locked c joining = none
    acquire_lock locked c (ended o) = none

    abbrev pub give_up_lock : Bool → Call Image → Caller Image → Option (Bool × Call Image)
    give_up_lock locked c waiting =
        if locked
        then some (locked, record c { caller = ended (busy engine.busy_message) })
        else none
    give_up_lock locked c joining = none
    give_up_lock locked c (ended o) = none

    -- The pipeline ends, the box is filled and the lock released.
    abbrev pub finish_inference : Bool → Call Image → Worker Image → Option (Bool × Call Image)
    finish_inference locked c unstarted = none
    finish_inference locked c in_pipeline =
        some (false, record c { worker = released (run_inference c.request) })
    finish_inference locked c (released box) = none
    finish_inference locked c (exited box) = none

    abbrev pub exit_worker : Bool → Call Image → Worker Image → Option (Bool × Call Image)
    exit_worker locked c unstarted = none
    exit_worker locked c in_pipeline = none
    exit_worker locked c (released box) = some (locked, record c { worker = exited box })
    exit_worker locked c (exited box) = none

    -- `worker.join(timeout=...)` ends while the worker is alive.
    abbrev pub stop_waiting : Bool → Call Image → Caller Image → Option (Bool × Call Image)
    stop_waiting locked c waiting = none
    stop_waiting locked c joining =
        if is_alive c.worker
        then some (locked, record c { caller = ended (timed_out engine.timeout_message) })
        else none
    stop_waiting locked c (ended o) = none

    abbrev pub read_box : Bool → Call Image → Worker Image → Option (Bool × Call Image)
    read_box locked c unstarted = none
    read_box locked c in_pipeline = none
    read_box locked c (released box) = none
    read_box locked c (exited box) = some (locked, record c { caller = ended (answer_of box) })

    abbrev pub join_worker : Bool → Call Image → Caller Image → Option (Bool × Call Image)
    join_worker locked c waiting = none
    join_worker locked c joining = read_box locked c c.worker
    join_worker locked c (ended o) = none

    -- The lock and the call after the move, or none where the move cannot be made.
    abbrev pub move : Move → Bool → Call Image → Option (Bool × Call Image)
    move acquire locked c = acquire_lock locked c c.caller
    move give_up locked c = give_up_lock locked c c.caller
    move finish locked c = finish_inference locked c c.worker
    move exit locked c = exit_worker locked c c.worker
    move time_out locked c = stop_waiting locked c c.caller
    move join locked c = join_worker locked c c.caller

-- The lock, and the calls of generate so far.
pub record Provider (Image : Type 0) : Type 0 where
  pub locked : Bool
  pub calls : List (Call Image)

abbrev pub entered : {Image : Type 0} → TryOnRequest Image → Call Image
entered request = record { request = request; caller = waiting; worker = unstarted }

pub data Step {Image : Type 0} (engine : Engine Image)
    : Provider Image → Provider Image → Type 0 where
  generate :
      (request : TryOnRequest Image) (locked : Bool) (calls : List (Call Image))
      → Step engine
          (record { locked = locked; calls = calls })
          (record { locked = locked; calls = entered request ∷ calls })
  moves :
      (m : Move) (locked locked' : Bool) (c c' : Call Image) (before after : List (Call Image))
      → move engine m locked c ≡ some (locked', c')
      → Step engine
          (record { locked = locked; calls = before ++ c ∷ after })
          (record { locked = locked'; calls = before ++ c' ∷ after })

pub data Reach {Image : Type 0} (engine : Engine Image) : Provider Image → Type 0 where
  new : Reach engine (record { locked = false; calls = [] })
  later : {s t : Provider Image} → Reach engine s → Step engine s t → Reach engine t
