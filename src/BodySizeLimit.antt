-- ===== src/BodySizeLimit.antt =====
-- RequestBodySizeLimitMiddleware of backend/app/core/body_size_limit.py for an http scope. The
-- declared Content-Length is the parsed header, none if it is missing or malformed. The wrapped app
-- is a parameter: what it does with the messages it receives.
pub mod Budget
use ai_virtual_try_on.Prelude.{
  ℕ, zero, suc, ◌+◌, Bool, true, false, Option, none, some, List, [], ◌∷◌, ltb, if◌then◌else◌,
}

-- `http.request` with the length of its body, `http.disconnect`, or another message.
pub data Message : Type 0 where
  request : ℕ → Message
  disconnect : Message
  other : Message

pub record Meter : Type 0 where
  pub received : ℕ
  pub limit_exceeded : Bool
  pub wire : List Message

-- A receive with nothing left on the wire is a disconnect: the server has no more to give.
unfoldable pub receive : Meter → Message × Meter
receive m = elim m.wire [ [] ↦ (disconnect, m) | x ∷ rest ↦ (x, record m { wire = rest }) ]

abbrev count_message : ℕ → Message → Meter → Message × Meter
count_message max_bytes (request n) m =
    let m' = record m { received = m.received + n } in
    if ltb max_bytes (m.received + n)
    then (disconnect, record m' { limit_exceeded = true })
    else (request n, m')
count_message max_bytes disconnect m = (disconnect, m)
count_message max_bytes other m = (other, m)

unfoldable pub limited_receive : ℕ → Meter → Message × Meter
unfolding receive
limited_receive max_bytes m =
    if m.limit_exceeded
    then (disconnect, m)
    else (let (x, m') = receive m in count_message max_bytes x m')

-- The app receives some number of times; these are the messages it gets.
unfoldable pub deliver : ℕ → ℕ → Meter → List Message × Meter
deliver max_bytes zero m = ([], m)
deliver max_bytes (suc n) m =
    let (x, m') = limited_receive max_bytes m in
    let (xs, m'') = deliver max_bytes n m' in (x ∷ xs, m'')

-- How the app ends on what it got: with its response, with ClientDisconnect, or another exception.
pub data AppEnd (Response : Type 0) : Type 0 where
  responded : Response → AppEnd Response
  client_disconnect : AppEnd Response
  raised : AppEnd Response

pub data Reply (Response : Type 0) : Type 0 where
  response : Response → Reply Response
  too_large_413 : Reply Response
  propagates_disconnect : Reply Response
  propagates_error : Reply Response

abbrev pub start : List Message → Meter
start wire = record { received = 0; limit_exceeded = false; wire = wire }

abbrev pub reply_for : {R : Type 0} → Bool → AppEnd R → Reply R
reply_for exceeded (responded r) = response r
reply_for true client_disconnect = too_large_413
reply_for false client_disconnect = propagates_disconnect
reply_for exceeded raised = propagates_error

-- The app receives `reads` times, as it decides on the whole wire, and ends.
unfoldable pub call :
    {R : Type 0} → ℕ → Option ℕ → List Message → ℕ → (List Message → AppEnd R) → Reply R
call max_bytes declared wire reads app =
    let (got, m) = deliver max_bytes reads (start wire) in
    let through = reply_for m.limit_exceeded (app got) in
    elim declared [ none ↦ through | some n ↦ if ltb max_bytes n then too_large_413 else through ]
