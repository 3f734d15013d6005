-- ===== src/BodySizeLimit/Budget.antt =====
-- The budget of the request body: what the wrapped app can receive.
use ai_virtual_try_on.Prelude.{
  ℕ, zero, suc, ◌+◌, ◌≤◌, ◌≡◌, refl, Bool, true, false, Option, none, some, List, [], ◌∷◌, ltb,
  arith,
}
use ai_virtual_try_on.BodySizeLimit.{
  Message, request, disconnect, other, Meter, limited_receive, deliver, start, AppEnd, reply_for,
  call,
}

abbrev pub body_length : List Message → ℕ
body_length [] = 0
body_length (request n ∷ xs) = n + body_length xs
body_length (disconnect ∷ xs) = body_length xs
body_length (other ∷ xs) = body_length xs

abbrev meter : ℕ → Bool → List Message → Meter
meter r e w = record { received = r; limit_exceeded = e; wire = w }

-- What the app would receive without the limit.
pub reads_of : ℕ → List Message → List Message
reads_of zero w = []
reads_of (suc n) [] = disconnect ∷ reads_of n []
reads_of (suc n) (x ∷ w) = x ∷ reads_of n w

module _ (max_bytes : ℕ) where
  exceeded_delivers_nothing :
      (n r : ℕ) (w : List Message) → body_length (deliver max_bytes n (meter r true w)).0 ≡ 0
  unfolding deliver limited_receive
  exceeded_delivers_nothing zero r w = refl
  exceeded_delivers_nothing (suc n) r w = exceeded_delivers_nothing n r w

  deliver_within :
      (n r : ℕ) (w : List Message)
      → r ≤ max_bytes
      → r + body_length (deliver max_bytes n (meter r false w)).0 ≤ max_bytes
  unfolding deliver limited_receive
  deliver_within zero r w h = omega arith
  deliver_within (suc n) r [] h = deliver_within n r [] h
  deliver_within (suc n) r (request k ∷ w) h =
      ground (arith, exceeded_delivers_nothing n (r + k) w, deliver_within n (r + k) w)
  deliver_within (suc n) r (disconnect ∷ w) h = deliver_within n r w h
  deliver_within (suc n) r (other ∷ w) h = deliver_within n r w h

  deliver_all :
      (n r : ℕ) (w : List Message)
      → r + body_length w ≤ max_bytes
      → ((deliver max_bytes n (meter r false w)).0 ≡ reads_of n w)
        × ((deliver max_bytes n (meter r false w)).1.limit_exceeded ≡ false)
  unfolding deliver limited_receive reads_of
  deliver_all zero r w h = (refl, refl)
  deliver_all (suc n) r [] h = ground (arith, deliver_all n r [] h)
  deliver_all (suc n) r (request k ∷ w) h = ground (arith, deliver_all n (r + k) w)
  deliver_all (suc n) r (disconnect ∷ w) h = ground (arith, deliver_all n r w h)
  deliver_all (suc n) r (other ∷ w) h = ground (arith, deliver_all n r w h)

  -- However often the app receives, the bodies that reach it sum up to at most max_bytes.
  pub delivered-le_max :
      (n : ℕ) (wire : List Message) → body_length (deliver max_bytes n (start wire)).0 ≤ max_bytes
  delivered-le_max n wire = omega (arith, deliver_within n 0 wire (omega arith))

  -- A request whose body and declared length are within the limit is served as if there were none:
  -- the app receives every message, and its response, its error and a client disconnect pass
  -- through.
  pub call_within_limit :
      {R : Type 0} (declared : Option ℕ) (wire : List Message) (reads : ℕ)
      (app : List Message → AppEnd R)
      → body_length wire ≤ max_bytes
      → ((n : ℕ) → declared ≡ some n → n ≤ max_bytes)
      → call max_bytes declared wire reads app ≡ reply_for false (app (reads_of reads wire))
  unfolding call
  call_within_limit none wire reads app fits honest =
      let (got, under) = deliver_all reads 0 wire (omega arith) in rw (got, under)
  call_within_limit (some n) wire reads app fits honest =
      let (got, under) = deliver_all reads 0 wire (omega arith) in
      let small : ltb max_bytes n ≡ false = ground (arith, honest n refl) in rw (small, got, under)
