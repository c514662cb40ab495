-- ===== src/Presence/Live.antt =====
-- Who is listed is live, and who sends a heartbeat is listed.
use cross_format_documment.Base.{
  ℕ, ◌≤◌, String, ◌==◌, eq_refl, Bool, true, false, List, [], ◌∷◌, ◌≡◌, refl, arith, if◌then◌else◌,
  Bool-cases, inl, inr, subst, sym, ◌∙◌,
}
use cross_format_documment.Base.Lists.{keep, All}
use cross_format_documment.Base.Maps.{put}
use cross_format_documment.Presence.Hub.{
  View, Viewer, State, put_view, views_of, is_live, prune, as_viewer, is_before, insert, snapshot,
  heartbeat,
}

-- a viewer is among those listed
abbrev pub lists : String → List Viewer → Bool
lists i [] = false
lists i (v ∷ vs) = if v.viewer_id == i then true else lists i vs

abbrev pub views_have : String → List View → Bool
views_have i [] = false
views_have i (v ∷ views) = if v.viewer_id == i then true else views_have i views

-- Nobody is listed who has been idle for longer than the time to live.
abbrev pub AllLive : ℕ → List Viewer → Type 0
AllLive ttl vs = All (λ (v : Viewer). v.idle ≤ ttl) vs

insert-AllLive :
    (ttl : ℕ) (v : Viewer) (vs : List Viewer)
    → v.idle ≤ ttl
    → AllLive ttl vs
    → AllLive ttl (insert v vs)
unfolding insert
insert-AllLive ttl v [] h a = (h, tt)
insert-AllLive ttl v (w ∷ vs) h (b, c) = elim (Bool-cases (is_before v.viewer_id w.viewer_id)) [
  | inl t ↦ rw t (h, (b, c))
  | inr f ↦ rw f (b, insert-AllLive ttl v vs h c)
]

lists-insert :
    (i : String) (v : Viewer) (vs : List Viewer)
    → lists i (insert v vs) ≡ (if v.viewer_id == i then true else lists i vs)
unfolding insert
lists-insert i v [] = refl
lists-insert i v (w ∷ vs) = ground (arith, lists-insert i v vs)

snapshot-AllLive :
    (ttl now : ℕ) (views : List View) → AllLive ttl (snapshot now (keep (is_live ttl now) views))
unfolding snapshot
snapshot-AllLive ttl now [] = tt
snapshot-AllLive ttl now (v ∷ views) =
    let rest = snapshot-AllLive ttl now views in
    elim (Bool-cases (is_live ttl now v)) [
      | inl t ↦ rw t (
          insert-AllLive ttl (as_viewer now v) (snapshot now (keep (is_live ttl now) views))
            (ground (arith, t)) rest)
      | inr f ↦ rw f rest
    ]

lists-snapshot :
    (i : String) (now : ℕ) (views : List View) → lists i (snapshot now views) ≡ views_have i views
unfolding snapshot
lists-snapshot i now [] = refl
lists-snapshot i now (v ∷ views) =
    ground
      (arith, lists-insert i (as_viewer now v) (snapshot now views), lists-snapshot i now views)

-- The view that was just put is live and stays.
keep-put_view :
    (ttl : ℕ) (v : View) (views : List View)
    → views_have v.viewer_id (keep (is_live ttl v.seen) (put_view v views)) ≡ true
unfolding put_view
keep-put_view ttl v [] = ground (arith, eq_refl v.viewer_id)
keep-put_view ttl v (w ∷ views) = ground (arith, eq_refl v.viewer_id, keep-put_view ttl v views)

-- A heartbeat lists its own viewer, and nobody who has been idle for longer than the time to live.
pub heartbeat-lists :
    (ttl : ℕ) (state : State) (doc_id : String) (v : View)
    → (lists v.viewer_id (heartbeat ttl state doc_id v).0 ≡ true)
      × AllLive ttl (heartbeat ttl state doc_id v).0
unfolding heartbeat prune
heartbeat-lists ttl state doc_id v =
    let views = put_view v (views_of state doc_id) in
    let entered : views_of (put state doc_id views) doc_id ≡ views =
      rw (views_of, eq_refl doc_id) refl in
    subst
      (λ x.
        (lists v.viewer_id (snapshot v.seen (keep (is_live ttl v.seen) x)) ≡ true)
        × AllLive ttl (snapshot v.seen (keep (is_live ttl v.seen) x)))
      (sym entered)
      (
        lists-snapshot v.viewer_id v.seen (keep (is_live ttl v.seen) views)
            ∙ keep-put_view ttl v (views_of state doc_id),
        snapshot-AllLive ttl v.seen views,
      )
