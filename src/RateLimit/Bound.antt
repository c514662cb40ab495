-- ===== src/RateLimit/Bound.antt =====
-- How many requests a bucket lets through in a time.
use cross_format_documment.Base.{
  text_eq, ℕ, ◌+◌, ◌-◌, ◌*◌, ◌≤◌, suc, String, ◌==◌, eq_refl, none, some, Bool, true, false, List,
  [], ◌∷◌, ◌≡◌, refl, arith, if◌then◌else◌, Bool-cases, inl, inr, ◌∙◌, sym, ap, subst,
}
use native.Mathlib.Nat.{add-mul, mul-le-mul_right}
use cross_format_documment.Base.Maps.{Map, put}
use cross_format_documment.RateLimit.Bucket.{Bucket, whole, bucket_of, refilled, draw, allow}

-- A call of `allow`: the key and the time.
abbrev pub Call : Type 0
Call = String × ℕ

-- how many of the calls for a key are let through
abbrev pub admitted : ℕ → ℕ → ℕ → String → Map Bucket → List Call → ℕ
admitted ticks rate burst key state [] = 0
admitted ticks rate burst key state ((k, now) ∷ calls) =
    let (allowed, after) = allow ticks state k rate burst now in
    let rest = admitted ticks rate burst key after calls in
    if k == key then (if allowed then suc rest else rest) else rest

-- The clock of the calls never goes back: each is at a time from a bound to an end.
abbrev pub InTime : ℕ → ℕ → List Call → Type 0
InTime from end [] = from ≤ end
InTime from end ((k, now) ∷ calls) = (from ≤ now) × InTime now end calls

refill_twice : (a b c r : ℕ) → a ≤ b → b ≤ c → (b - a) * r + (c - b) * r ≡ (c - a) * r
refill_twice a b c r h k = sym (add-mul (b - a) (c - b) r) ∙ ap (λ x. x * r) (omega (arith, h, k))

module _ (ticks rate burst : ℕ) where
  draw_pays :
      (now : ℕ) (b : Bucket)
      → (if (draw ticks rate burst now b).0 then whole ticks else 0)
          + ((draw ticks rate burst now b).1).tokens
        ≤ b.tokens + (now - b.last) * rate
  unfolding draw refilled
  draw_pays now b = ground arith

  draw_now : (now : ℕ) (b : Bucket) → ((draw ticks rate burst now b).1).last ≡ now
  unfolding draw refilled
  draw_now now b = ground arith

  one_more :
      (allowed : Bool) (rest w : ℕ)
      → (if allowed then suc rest else rest) * w ≡ (if allowed then w else 0) + rest * w
  one_more true rest w = omega (arith, add-mul 1 rest w)
  one_more false rest w = omega arith

  InTime-ends : (from end : ℕ) (calls : List Call) → InTime from end calls → from ≤ end
  InTime-ends from end [] t = t
  InTime-ends from end ((k, now) ∷ calls) (f, t) = omega (arith, f, InTime-ends now end calls t)

  -- A draw pays for what it lets through, and the rest of the calls for what they do.
  paid :
      (now end rest : ℕ) (b : Bucket)
      → b.last ≤ now
      → now ≤ end
      → rest * whole ticks
        ≤ ((draw ticks rate burst now b).1).tokens
          + (end - ((draw ticks rate burst now b).1).last) * rate
      → (if (draw ticks rate burst now b).0 then suc rest else rest) * whole ticks
        ≤ b.tokens + (end - b.last) * rate
  paid now end rest b l n h =
      let h' = rw (draw_now now b) at h in
      omega (
        arith,
        one_more (draw ticks rate burst now b).0 rest (whole ticks),
        draw_pays now b,
        refill_twice b.last now end rate l n,
        h',
      )

  admitted_here :
      (key : String) (state : Map Bucket) (b : Bucket) (now : ℕ) (calls : List Call)
      → bucket_of state key ticks burst now ≡ b
      → admitted ticks rate burst key state ((key, now) ∷ calls) ≡ (
          if (draw ticks rate burst now b).0
          then suc
              (admitted ticks rate burst key (put state key (draw ticks rate burst now b).1) calls)
          else admitted ticks rate burst key (put state key (draw ticks rate burst now b).1) calls)
  unfolding allow
  admitted_here key state b now calls e = rw (eq_refl key, e) refl

  -- A call for the key, by the bucket that it draws from and what the calls after it are let.
  admitted_same :
      (k key : String) (state : Map Bucket) (b : Bucket) (now end : ℕ) (calls : List Call)
      → (k == key) ≡ true
      → bucket_of state key ticks burst now ≡ b
      → b.last ≤ now
      → InTime now end calls
      → admitted ticks rate burst key (put state key (draw ticks rate burst now b).1) calls
          * whole ticks
        ≤ ((draw ticks rate burst now b).1).tokens
          + (end - ((draw ticks rate burst now b).1).last) * rate
      → admitted ticks rate burst key state ((k, now) ∷ calls) * whole ticks
        ≤ b.tokens + (end - b.last) * rate
  admitted_same k key state b now end calls same e l t below =
      let after = put state key (draw ticks rate burst now b).1 in
      subst
        (λ x.
          admitted ticks rate burst key state ((x, now) ∷ calls) * whole ticks
          ≤ b.tokens + (end - b.last) * rate)
        (sym (text_eq k key same))
        (subst (λ x. x * whole ticks ≤ b.tokens + (end - b.last) * rate)
          (sym (admitted_here key state b now calls e))
          (paid now end (admitted ticks rate burst key after calls) b l
            (InTime-ends now end calls t) below))

  -- From a bucket that is there.
  admitted_from :
      (key : String) (state : Map Bucket) (b : Bucket) (from end : ℕ) (calls : List Call)
      → state key ≡ some b
      → b.last ≤ from
      → InTime from end calls
      → admitted ticks rate burst key state calls * whole ticks ≤ b.tokens + (end - b.last) * rate
  unfolding allow
  admitted_from key state b from end [] h l t = omega arith
  admitted_from key state b from end ((k, now) ∷ calls) h l (f, t) = elim (Bool-cases (k == key)) [
    | inl same ↦
        let below =
          admitted_from key (put state key (draw ticks rate burst now b).1)
            (draw ticks rate burst now b).1 now end calls (rw (eq_refl key) refl)
            (omega (arith, draw_now now b)) t in
        admitted_same k key state b now end calls same (rw (bucket_of, h) refl)
          (omega (arith, l, f)) t below
    | inr other ↦ rw other (
        admitted_from key (allow ticks state k rate burst now).1 b now end calls (rw other h)
          (omega (arith, l, f)) t)
  ]

  later_is_more : (a from end : ℕ) → a ≤ from → (end - from) * rate ≤ (end - a) * rate
  later_is_more a from end h = mul-le-mul_right rate (omega (arith, h))

  -- In a time that starts with no bucket for the key, at most `burst` tokens and those that the time
  -- refills are given out, whatever other keys are asked for in between.
  pub admitted_at_most :
      (key : String) (state : Map Bucket) (from end : ℕ) (calls : List Call)
      → state key ≡ none
      → InTime from end calls
      → admitted ticks rate burst key state calls * whole ticks
        ≤ burst * whole ticks + (end - from) * rate
  unfolding allow
  admitted_at_most key state from end [] h t = omega arith
  admitted_at_most key state from end ((k, now) ∷ calls) h (f, t) = elim (Bool-cases (k == key)) [
    | inl same ↦
        let full : Bucket = record { tokens = burst * whole ticks; last = now } in
        let below =
          admitted_from key (put state key (draw ticks rate burst now full).1)
            (draw ticks rate burst now full).1 now end calls (rw (eq_refl key) refl)
            (omega (arith, draw_now now full)) t in
        let all =
          admitted_same k key state full now end calls same (rw (bucket_of, h) refl) (omega arith) t
            below in
        omega (arith, all, later_is_more from now end f)
    | inr other ↦
        let rest =
          admitted_at_most key (allow ticks state k rate burst now).1 now end calls (rw other h)
            t in
        rw other (omega (arith, rest, later_is_more from now end f))
  ]
