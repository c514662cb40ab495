-- ===== src/Presence/Hub.antt =====
-- `MemoryHub` of services/collab/presence.py (backend/src/docos): the views of each document, with
-- the time of the last heartbeat in ticks. A document's views stand in a list, one for each viewer.
use cross_format_documment.Base.{
  ℕ, ◌-◌, String, ◌==◌, none, some, Bool, true, false, List, [], ◌∷◌, leb, if◌then◌else◌,
}
use cross_format_documment.Base.Lists.{keep}
use cross_format_documment.Base.Maps.{Map, empty, put, del}
use Prim.Native.Nat.{Ordering}
use Prim.Native.String.{compare}

pub record View : Type 0 where
  pub viewer_id : String
  pub name : String
  pub color : String
  pub seen : ℕ

-- What is answered for a view, with the time since its last heartbeat.
pub record Viewer : Type 0 where
  pub viewer_id : String
  pub name : String
  pub color : String
  pub idle : ℕ

abbrev pub State : Type 0
State = Map (List View)

-- `views[viewer_id] = ...`
unfoldable pub put_view : View → List View → List View
put_view v [] = v ∷ []
put_view v (w ∷ views) =
    let rest = put_view v views in if w.viewer_id == v.viewer_id then v ∷ views else w ∷ rest

abbrev pub views_of : State → String → List View
views_of state doc_id = elim (state doc_id) [ none ↦ [] | some views ↦ views ]

abbrev pub is_live : ℕ → ℕ → View → Bool
is_live ttl now v = leb (now - v.seen) ttl

-- The views that are left, and the state with them; a document without views is dropped.
abbrev pub store_live : State → String → List View → State
store_live state doc_id [] = del state doc_id
store_live state doc_id (v ∷ views) = put state doc_id (v ∷ views)

unfoldable pub prune : ℕ → State → String → ℕ → List View × State
prune ttl state doc_id now =
    let live = keep (is_live ttl now) (views_of state doc_id) in
    (live, store_live state doc_id live)

abbrev pub as_viewer : ℕ → View → Viewer
as_viewer now v = record {
  viewer_id = v.viewer_id;
  name = v.name;
  color = v.color;
  idle = now - v.seen;
}

-- `sorted`, by the viewers' ids
abbrev pub is_before : String → String → Bool
is_before a b = elim (compare a b) [ Ordering.gt ↦ false | _ ↦ true ]

unfoldable pub insert : Viewer → List Viewer → List Viewer
insert v [] = v ∷ []
insert v (w ∷ viewers) =
    let rest = insert v viewers in
    if is_before v.viewer_id w.viewer_id then v ∷ w ∷ viewers else w ∷ rest

unfoldable pub snapshot : ℕ → List View → List Viewer
unfolding insert
snapshot now [] = []
snapshot now (v ∷ views) = insert (as_viewer now v) (snapshot now views)

module _ (ttl : ℕ) where
  unfoldable pub heartbeat : State → String → View → List Viewer × State
  unfolding put_view prune snapshot
  heartbeat state doc_id v =
      let entered = put state doc_id (put_view v (views_of state doc_id)) in
      let (live, after) = prune ttl entered doc_id v.seen in (snapshot v.seen live, after)

  unfoldable pub viewers : State → String → ℕ → List Viewer × State
  unfolding prune snapshot
  viewers state doc_id now =
      let (live, after) = prune ttl state doc_id now in (snapshot now live, after)

-- `views.pop(viewer_id, None)`
unfoldable pub without_view : String → List View → List View
without_view i [] = []
without_view i (v ∷ views) =
    let rest = without_view i views in if v.viewer_id == i then views else v ∷ rest

unfoldable pub leave : State → String → String → State
unfolding without_view
leave state doc_id viewer_id = elim (state doc_id) [
  | none ↦ state
  | some views ↦ put state doc_id (without_view viewer_id views)
]

-- `reset`: every document's views go
abbrev pub reset : State
reset = empty
