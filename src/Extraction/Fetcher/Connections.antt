-- ===== src/Extraction/Fetcher/Connections.antt =====
-- Where the fetcher connects to, how often, and how much it returns.
use ai_virtual_try_on.Prelude.{
  ℕ, zero, suc, ◌+◌, ◌≤◌, ◌≡◌, Bool, true, false, Option, none, some, length, All, arith, inl, inr,
}
use ai_virtual_try_on.Errors.Exec.{Result, ok, err, Exec, pure, raise, ◌>>=◌, ◌>>◌, Result-cases}
use ai_virtual_try_on.Storage.{Bytes}
use ai_virtual_try_on.Extraction.Guard.{Url, Target, resolve_pinned_connect_url}
use ai_virtual_try_on.Extraction.Guard.Pinning.{IsPinned, resolve_pinned_lem}
use ai_virtual_try_on.Extraction.Fetcher.{
  Connection, Web, Net, resolve, assert_safe_url, send, follow, one_round, request_rounds, request,
  get_bytes, check_robots_txt, decode, fetch_image_from_url, fetch_product_image, fetch_failed,
  lift, max_page_bytes, max_image_bytes, robots_url, image_on,
}

module _ {Image : Type 0} (web : Web Image) where
  -- The connection goes to the first address of the lookup that it names, of its own host, and all
  -- answers of that lookup are allowed.
  abbrev pub IsGuarded : Connection → Type 0
  IsGuarded c = IsPinned c.target.address (web.lookup c.lookup_number c.target.host)

  -- An action that makes at most `k` connections, all of them guarded.
  pub record Guards {A : Type 0} (k : ℕ) (m : Exec Net A) : Type 0 where
    pub guarded : (s : Net) → All IsGuarded s.connections → All IsGuarded (m s).1.connections
    pub bounded : (s : Net) → length (m s).1.connections ≤ length s.connections + k

  Guards-bind :
      {A B : Type 0} (j k : ℕ) (m : Exec Net A) (f : A → Exec Net B)
      → Guards j m
      → ((a : A) → Guards k (f a))
      → Guards (j + k) (m >>= f)
  Guards-bind j k m f gm gf = record {
    guarded = λ s safe. elim (Result-cases (m s).0) [
      | inl (a, e) ↦ ground (arith, gm.guarded s safe, (gf a).guarded (m s).1)
      | inr (e', e) ↦ ground (arith, gm.guarded s safe)
    ];
    bounded = λ s. elim (Result-cases (m s).0) [
      | inl (a, e) ↦ ground (arith, gm.bounded s, (gf a).bounded (m s).1)
      | inr (e', e) ↦ ground (arith, gm.bounded s)
    ];
  }

  Guards-result : {A : Type 0} (r : Result A) → Guards 0 (lift web r)
  Guards-result r = record { guarded = λ s safe. safe; bounded = λ s. omega arith }

  resolve_lem :
      (url : Url) (s : Net) (target : Target) (n : ℕ)
      → (resolve web url s).0 ≡ ok (target, n)
      → IsGuarded (record { target = target; lookup_number = n })
  unfolding resolve
  resolve_lem url s target n h =
      elim (Result-cases (resolve_pinned_connect_url web.lookup url s.lookups).0) [
        | inl (t, e) ↦
            let same : t ≡ target = ground arith in
            let number : s.lookups ≡ n = ground arith in
            rw (← same, ← number) (resolve_pinned_lem web.lookup url s.lookups t e)
        | inr (e', e) ↦ absurd (ground arith)
      ]

  resolve_connections : (url : Url) (s : Net) → (resolve web url s).1.connections ≡ s.connections
  unfolding resolve
  resolve_connections url s =
      elim (Result-cases (resolve_pinned_connect_url web.lookup url s.lookups).0) [
        | inl (t, e) ↦ ground arith
        | inr (e', e) ↦ ground arith
      ]

  send_guarded :
      (target : Target) (n : ℕ) (s : Net)
      → IsGuarded (record { target = target; lookup_number = n })
      → All IsGuarded s.connections
      → All IsGuarded (send web (target, n) s).1.connections
  unfolding send
  send_guarded target n s here safe = ground arith

  send_bounded :
      (t : Target × ℕ) (s : Net) → length (send web t s).1.connections ≤ suc (length s.connections)
  unfolding send
  send_bounded (target, n) s = ground arith

  connect_guarded :
      (url : Url) (s : Net)
      → All IsGuarded s.connections
      → All IsGuarded ((resolve web url >>= send web) s).1.connections
  connect_guarded url s safe = elim (Result-cases (resolve web url s).0) [
    | inl ((target, n), e) ↦ ground (
      arith,
      resolve_connections url s,
      send_guarded target n (resolve web url s).1 (resolve_lem url s target n e),
    )
    | inr (e', e) ↦ ground (arith, resolve_connections url s)
  ]

  connect_bounded :
      (url : Url) (s : Net)
      → length ((resolve web url >>= send web) s).1.connections ≤ length s.connections + 1
  connect_bounded url s = elim (Result-cases (resolve web url s).0) [
    | inl (t, e) ↦ ground (arith, resolve_connections url s, send_bounded t (resolve web url s).1)
    | inr (e', e) ↦ ground (arith, resolve_connections url s)
  ]

  Guards-connect : (url : Url) → Guards 1 (resolve web url >>= send web)
  Guards-connect url = record { guarded = connect_guarded url; bounded = connect_bounded url }

  Guards-resolve : (url : Url) → Guards 0 (assert_safe_url web url)
  unfolding assert_safe_url
  Guards-resolve url = record {
    guarded = λ s safe. elim (Result-cases (resolve web url s).0) [
      | inl (t, e) ↦ ground (arith, resolve_connections url s)
      | inr (e', e) ↦ ground (arith, resolve_connections url s)
    ];
    bounded = λ s. elim (Result-cases (resolve web url s).0) [
      | inl (t, e) ↦ ground (arith, resolve_connections url s)
      | inr (e', e) ↦ ground (arith, resolve_connections url s)
    ];
  }

  Guards-one_round :
      (url : Url) (max_bytes : ℕ) (allow_404 : Bool)
      → Guards 1 (one_round web url max_bytes allow_404)
  unfolding one_round
  Guards-one_round url max_bytes allow_404 =
      Guards-bind 1 0 (resolve web url >>= send web)
        (λ response. lift web (follow web url max_bytes allow_404 response)) (Guards-connect url)
        (λ response. Guards-result (follow web url max_bytes allow_404 response))

  Guards-more : {A : Type 0} (j k : ℕ) (m : Exec Net A) → j ≤ k → Guards j m → Guards k m
  Guards-more j k m h g = record { guarded = g.guarded; bounded = λ s. omega (arith, g.bounded s) }

  Guards-again :
      (k : ℕ) (again : Bool) (content : Option Bytes) (m : Exec Net (Option Bytes))
      → Guards k m
      → Guards k (elim again [ true ↦ m | false ↦ pure content ])
  Guards-again k true content m g = g
  Guards-again k false content m g =
      Guards-more 0 k (pure content) (omega arith) (Guards-result (ok content))

  -- At most one connection for each round that is left.
  Guards-request_rounds :
      (rounds : ℕ) (url : Url) (max_bytes : ℕ) (allow_404 : Bool)
      → Guards rounds (request_rounds web rounds url max_bytes allow_404)
  unfolding request_rounds
  Guards-request_rounds zero url max_bytes allow_404 = Guards-result (err fetch_failed)
  Guards-request_rounds (suc rounds) url max_bytes allow_404 =
      Guards-more (1 + rounds) (suc rounds) _ (omega arith) (
        Guards-bind 1 rounds (one_round web url max_bytes allow_404) _
          (Guards-one_round url max_bytes allow_404)
          (λ r.
            Guards-again rounds r.1 r.2 (request_rounds web rounds r.0 max_bytes allow_404)
              (Guards-request_rounds rounds r.0 max_bytes allow_404)))

  Guards-request :
      (url : Url) (max_bytes : ℕ) (allow_404 : Bool)
      → Guards 4 (request web url max_bytes allow_404)
  unfolding request
  Guards-request url max_bytes allow_404 = Guards-request_rounds 4 url max_bytes allow_404

  Guards-content :
      (content : Option Bytes)
      → Guards {A = Bytes} 0 (elim content [ none ↦ raise fetch_failed | some bytes ↦ pure bytes ])
  Guards-content none = Guards-result (err fetch_failed)
  Guards-content (some bytes) = Guards-result (ok bytes)

  Guards-get_bytes : (url : Url) (max_bytes : ℕ) → Guards 4 (get_bytes web url max_bytes)
  unfolding get_bytes
  Guards-get_bytes url max_bytes =
      Guards-bind 4 0 (request web url max_bytes false) _ (Guards-request url max_bytes false)
        Guards-content

  Guards-decode : (bytes : Bytes) → Guards 0 (decode web bytes)
  unfolding decode
  Guards-decode bytes = record { guarded = λ s safe. safe; bounded = λ s. omega arith }

  Guards-fetch_image : (url : Url) → Guards 4 (fetch_image_from_url web url)
  unfolding fetch_image_from_url
  Guards-fetch_image url =
      Guards-bind 4 0 (assert_safe_url web url >> get_bytes web url max_image_bytes) _
        (Guards-bind 0 4 (assert_safe_url web url) _ (Guards-resolve url)
          (λ u. Guards-get_bytes url max_image_bytes))
        (λ bytes. Guards-decode bytes)

  Guards-robots : (url : Url) → Guards 4 (check_robots_txt web url)
  unfolding check_robots_txt
  Guards-robots url =
      let inner =
        Guards-bind 0 4 (assert_safe_url web (robots_url web url)) _
          (Guards-resolve (robots_url web url))
          (λ u. Guards-request (robots_url web url) max_page_bytes true) in
      record { guarded = λ s. inner.guarded s; bounded = λ s. inner.bounded s }

  Guards-fetch_product : (url : Url) → Guards 12 (fetch_product_image web url)
  unfolding fetch_product_image
  Guards-fetch_product url =
      Guards-bind 8 4
        ((assert_safe_url web url >> check_robots_txt web url)
          >> request web url max_page_bytes false)
        _
        (Guards-bind 4 4 (assert_safe_url web url >> check_robots_txt web url) _
          (Guards-bind 0 4 (assert_safe_url web url) _ (Guards-resolve url)
            (λ u. Guards-robots url))
          (λ u. Guards-request url max_page_bytes false))
        (λ html.
          Guards-bind 0 4 (lift web (image_on web url html)) _
            (Guards-result (image_on web url html)) (λ image_url. Guards-fetch_image image_url))

  -- Whatever the network, the pages and the redirects are, every connection that the fetch of a
  -- product makes goes to the first answer of the very lookup that was checked for it, none of whose
  -- answers is disallowed.
  pub fetch_product_image_guarded :
      (url : Url) (s : Net)
      → All IsGuarded s.connections
      → All IsGuarded (fetch_product_image web url s).1.connections
  fetch_product_image_guarded url s = (Guards-fetch_product url).guarded s

  -- The fetch of a product ends after at most twelve connections, and that of an image after at
  -- most four, however the servers redirect.
  pub fetch_bounded :
      (url : Url) (s : Net)
      → (length (fetch_product_image web url s).1.connections ≤ length s.connections + 12)
        × (length (fetch_image_from_url web url s).1.connections ≤ length s.connections + 4)
  fetch_bounded url s = ((Guards-fetch_product url).bounded s, (Guards-fetch_image url).bounded s)
