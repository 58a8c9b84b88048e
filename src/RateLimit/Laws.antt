-- ===== src/RateLimit/Laws.antt =====
-- apps/api/src/common/middleware/rate-limit.middleware.ts: how many requests pass.
use sync_bridge_platform.Base.{
  ℕ, suc, ◌+◌, ◌-◌, ◌≤◌, ◌<◌, ◌≢◌, String, Bool, true, false, ◌&&◌, Option, none, some, List, [],
  ◌∷◌, ◌==◌, ◌≡◌, refl, sym, ◌∙◌, ap, ◌⊎◌, inl, inr, arith, eq_iff, eq_refl, All, Bool-cases,
  Option-cases, leb, if◌then◌else◌,
}
use sync_bridge_platform.RateLimit.{
  RateLimitRule, Bucket, Limiter, Response, passed, counted, rejected, cleanup_expired_buckets,
  live_bucket, increment, count_request, build_key, address, match_rule, handle, Request,
}

-- One request that a rule counts: the rule, the key and the two times that its handling reads.
pub record Visit : Type 0 where
  pub rule : RateLimitRule
  pub key : String
  pub cleanup_at : ℕ
  pub now : ℕ

pub is_accepted : Response → Bool
is_accepted passed = true
is_accepted (counted _ _ _) = true
is_accepted (rejected _ _ _ _) = false

abbrev pub visit : Visit → Limiter → Response × Limiter
visit v l = count_request v.rule v.key v.now (cleanup_expired_buckets v.cleanup_at l)

-- How many of the visits under a key pass.
abbrev pub accepted : String → Limiter → List Visit → ℕ
accepted key l [] = 0
accepted key l (v ∷ vs) =
    let rest = accepted key (visit v l).1 vs in
    if v.key == key && is_accepted (visit v l).0 then suc rest else rest

-- A request that a rule matches is a visit under the key of the rule and the address.
handle-visit :
    (request : Request) (r : RateLimitRule) (l : Limiter)
    → match_rule request.method request.path ≡ some r
    → handle false request l
      ≡ visit
          (record {
            rule = r;
            key = build_key r.name (address request.ip);
            cleanup_at = request.cleanup_at;
            now = request.now;
          })
          l
unfolding handle
handle-visit request r l h = rw h refl

-- The visits lie in the span from `start` on that ends before `stop`, and those under the key are
-- counted by the given limit in windows of the given length.
pub record IsVisit (key : String) (limit window_ms start stop : ℕ) (v : Visit) : Type 0 where
  pub since : start ≤ v.now
  pub before : v.now < stop
  pub cleanup_before : v.cleanup_at < stop
  pub limit_is : v.key ≡ key → v.rule.limit ≡ limit
  pub window_is : v.key ≡ key → v.rule.window_ms ≡ window_ms

-- Where the cleanup reads a time no later than the count does, it is not observable in the response:
-- a bucket that it removes would be replaced anyway.
pub visit-cleanup :
    (v : Visit) (l : Limiter)
    → v.cleanup_at ≤ v.now
    → (visit v l).0 ≡ (count_request v.rule v.key v.now l).0
unfolding count_request cleanup_expired_buckets live_bucket
visit-cleanup v l h = ground arith

-- A bucket that outlives the two times of a visit goes on, and its key counts one more.
visit_other :
    (key : String) (v : Visit) (l : Limiter)
    → v.key ≢ key
    → (visit v l).1.counters key ≡ (cleanup_expired_buckets v.cleanup_at l).counters key
unfolding count_request
visit_other key v l ne = ground (arith, eq_iff v.key key, eq_iff key v.key)

cleanup_live :
    (key : String) (now : ℕ) (l : Limiter) (b : Bucket)
    → l.counters key ≡ some b
    → now < b.reset_at
    → (cleanup_expired_buckets now l).counters key ≡ some b
unfolding cleanup_expired_buckets
cleanup_live key now l b h lt = ground arith

-- The bucket that a visit counts in.
abbrev bucket_of : Visit → Limiter → Bucket
bucket_of v l =
    live_bucket v.now v.rule.window_ms ((cleanup_expired_buckets v.cleanup_at l).counters v.key)

visit_self :
    (v : Visit) (l : Limiter)
    → ((visit v l).1.counters v.key ≡ some (increment (bucket_of v l)))
      × (is_accepted (visit v l).0 ≡ true → suc (bucket_of v l).count ≤ v.rule.limit)
unfolding count_request is_accepted
visit_self v l = (ground (arith, eq_refl v.key), λ h. ground arith)

live_live :
    (now window_ms : ℕ) (b : Bucket) → now < b.reset_at → live_bucket now window_ms (some b) ≡ b
unfolding live_bucket
live_live now window_ms b h = ground arith

live_fresh :
    (now window_ms : ℕ) (o : Option Bucket)
    → ((b : Bucket) × (o ≡ some b) × (now < b.reset_at) × (live_bucket now window_ms o ≡ b))
      ⊎ (live_bucket now window_ms o ≡ record { count = 0; reset_at = now + window_ms })
unfolding live_bucket
live_fresh now window_ms none = inr refl
live_fresh now window_ms (some b) = elim (Bool-cases (leb b.reset_at now)) [
  | inl e ↦ inr (ground arith)
  | inr e ↦ inl (b, refl, ground arith, ground arith)
]

module _ (key : String) (limit window_ms start stop : ℕ) where
  -- While the bucket of the key lives, what is left of the limit bounds the visits that pass.
  accepted-live :
      (vs : List Visit) (l : Limiter) (b : Bucket)
      → l.counters key ≡ some b
      → stop ≤ b.reset_at
      → All (IsVisit key limit window_ms start stop) vs
      → accepted key l vs ≤ limit - b.count
  accepted-live [] l b h e all = omega arith
  accepted-live (v ∷ vs) l b h e (w, all) = elim (Bool-cases (v.key == key)) [
    | inr other ↦
        let ne : v.key ≢ key = λ q. absurd (ground (arith, eq_iff v.key key, q, other)) in
        let kept =
          visit_other key v l ne
          ∙ cleanup_live key v.cleanup_at l b h (omega (arith, w.cleanup_before)) in
        let rest = accepted-live vs (visit v l).1 b kept e all in ground (arith, other, rest)
    | inl same ↦
        let q : v.key ≡ key = ground (arith, eq_iff v.key key) in
        let found =
          ap (cleanup_expired_buckets v.cleanup_at l).counters q
          ∙ cleanup_live key v.cleanup_at l b h (omega (arith, w.cleanup_before)) in
        let is_b : bucket_of v l ≡ b =
          ap (live_bucket v.now v.rule.window_ms) found
          ∙ live_live v.now v.rule.window_ms b (omega (arith, w.before)) in
        let (stored, bound) = visit_self v l in
        let next : (visit v l).1.counters key ≡ some (increment b) =
          ap (visit v l).1.counters (sym q)
          ∙ stored
          ∙ ap (λ (x : Bucket). some (increment x)) is_b in
        let rest = accepted-live vs (visit v l).1 (increment b) next e all in
        let count : (bucket_of v l).count ≡ b.count = ap (λ (x : Bucket). x.count) is_b in
        let limit' = w.limit_is q in
        elim (Bool-cases (is_accepted (visit v l).0)) [
          | inl a ↦ let fits' = bound a in ground (arith, same, a, rest, count, limit', fits')
          | inr a ↦ ground (arith, same, a, rest)
        ]
  ]

  -- What a bucket leaves of the limit.
  abbrev room : Option Bucket → ℕ
  room none = 0
  room (some b) = limit - b.count

  room-cleanup :
      (now : ℕ) (l : Limiter)
      → room ((cleanup_expired_buckets now l).counters key) ≤ room (l.counters key)
  unfolding cleanup_expired_buckets
  room-cleanup now l = ground arith

  accepted-room :
      stop ≤ start + window_ms
      → (vs : List Visit) (l : Limiter) → All (IsVisit key limit window_ms start stop) vs
      → accepted key l vs ≤ room (l.counters key) + limit
  accepted-room span [] l all = omega arith
  accepted-room span (v ∷ vs) l (w, all) = elim (Bool-cases (v.key == key)) [
    | inr other ↦
        let ne : v.key ≢ key = λ q. absurd (ground (arith, eq_iff v.key key, q, other)) in
        let kept = ap room (visit_other key v l ne) in
        let rest = accepted-room span vs (visit v l).1 all in
        let less = room-cleanup v.cleanup_at l in ground (arith, other, rest, kept, less)
    | inl same ↦
        let q : v.key ≡ key = ground (arith, eq_iff v.key key) in
        let (stored, bound) = visit_self v l in
        let limit' = w.limit_is q in
        let window' = w.window_is q in
        let less = room-cleanup v.cleanup_at l in
        elim (live_fresh v.now v.rule.window_ms
          ((cleanup_expired_buckets v.cleanup_at l).counters v.key)) [
            | inl (b, found, lives, is_b) ↦
                let next : (visit v l).1.counters key ≡ some (increment b) =
                  ap (visit v l).1.counters (sym q)
                  ∙ stored
                  ∙ ap (λ (x : Bucket). some (increment x)) is_b in
                let count : (bucket_of v l).count ≡ b.count = ap (λ (x : Bucket). x.count) is_b in
                let rest = accepted-room span vs (visit v l).1 all in
                let after = ap room next in
                let now' =
                  ap room (ap (cleanup_expired_buckets v.cleanup_at l).counters (sym q) ∙ found) in
                elim (Bool-cases (is_accepted (visit v l).0)) [
                  | inl a ↦
                      let fits' = bound a in
                      ground (arith, same, a, rest, count, limit', fits', less, after, now')
                  | inr a ↦ ground (arith, same, a, rest, less, after, now')
                ]
            | inr fresh ↦
                let b : Bucket = record { count = 1; reset_at = v.now + v.rule.window_ms } in
                let next : (visit v l).1.counters key ≡ some b =
                  ap (visit v l).1.counters (sym q)
                  ∙ stored
                  ∙ ap (λ (x : Bucket). some (increment x)) fresh in
                let count : (bucket_of v l).count ≡ 0 = ap (λ (x : Bucket). x.count) fresh in
                let later : stop ≤ v.now + v.rule.window_ms =
                  omega (arith, span, window', w.since) in
                let rest = accepted-live vs (visit v l).1 b next later all in
                elim (Bool-cases (is_accepted (visit v l).0)) [
                  | inl a ↦
                      let fits' = bound a in ground (arith, same, a, rest, count, limit', fits')
                  | inr a ↦ ground (arith, same, a, rest)
                ]
          ]
  ]

  -- From any state, the visits under a key with one limit and one window length that lie in a span no
  -- longer than the window, cleanups included, pass at most twice as often as the limit says: the open
  -- window and the next one both admit up to the limit.
  pub accepted-bound :
      stop ≤ start + window_ms
      → (vs : List Visit) (l : Limiter) → All (IsVisit key limit window_ms start stop) vs
      → accepted key l vs ≤ limit + limit
  accepted-bound span vs l all =
      let bound = accepted-room span vs l all in
      elim (Option-cases (l.counters key)) [
        | inl none' ↦ let o = ap room none' in omega (arith, bound, o)
        | inr (b, some') ↦ let o = ap room some' in omega (arith, bound, o)
      ]
