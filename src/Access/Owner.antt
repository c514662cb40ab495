-- ===== src/Access/Owner.antt =====
-- Ownership of a document by session or by user.
use cross_format_documment.Base.{
  String, ◌==◌, eq_iff, eq_refl, Option, none, some, Bool, true, false, ◌≡◌, ◌⊎◌, ◌↔◌, inl, inr,
  refl, arith, ap, subst, Bool-cases, if◌then◌else◌, ◌||◌,
}
use cross_format_documment.Base.Maps.{Map}
use cross_format_documment.Base.Http.{Http, reply, fail, found, guard, ◌>>=◌, ◌>>◌}

pub record Actor : Type 0 where
  pub session_id : String
  pub user_id : Option String

-- The columns of a document's row that the access rules read.
pub record Document : Type 0 where
  pub id : String
  pub owner_session_id : Option String
  pub owner_user_id : Option String
  pub current_version_id : Option String

-- `a is not None and a == b`
abbrev pub same_text : Option String → String → Bool
same_text none b = false
same_text (some a) b = a == b

-- both are there and equal
abbrev pub both_same : Option String → Option String → Bool
both_same a none = false
both_same a (some b) = same_text a b

unfoldable pub owns : Document → Actor → Bool
owns doc actor =
    if same_text doc.owner_session_id actor.session_id
    then true
    else both_same doc.owner_user_id actor.user_id

-- The filter that `owner_clause` builds, on one row's two columns.
unfoldable pub owner_clause : Option String → Option String → Actor → Bool
owner_clause session_col user_col actor =
    same_text session_col actor.session_id || both_same user_col actor.user_id

-- the rest of `get_owned_document` on the row that the session holds
unfoldable handed : Option Document → Actor → Http Document
unfolding owns
handed row actor = do doc ← found row 404; guard (owns doc actor) 404; reply doc

unfoldable pub get_owned_document : Map Document → String → Actor → Http Document
unfolding handed
get_owned_document docs doc_id actor = handed (docs doc_id) actor

-- The check of one loaded document and the filter over many rows agree.
pub owns-eq-owner_clause :
    (doc : Document) (actor : Actor)
    → owns doc actor ≡ owner_clause doc.owner_session_id doc.owner_user_id actor
unfolding owns owner_clause
owns-eq-owner_clause doc actor = ground arith

-- What the module's words say of ownership: the row's session is the actor's, or its user is.
unfoldable pub Owned : Document → Actor → Type 0
Owned doc actor =
    (doc.owner_session_id ≡ some actor.session_id)
    ⊎ ((u : String) × (doc.owner_user_id ≡ some u) × (actor.user_id ≡ some u))

same_text-Eq : (a : Option String) (b : String) → same_text a b ≡ true → a ≡ some b
same_text-Eq none b h = cc
same_text-Eq (some a) b h = ap some (ground (arith, eq_iff a b, h))

both_same-Eq :
    (a b : Option String) → both_same a b ≡ true → (u : String) × (a ≡ some u) × (b ≡ some u)
both_same-Eq a none h = cc
both_same-Eq a (some b) h = (b, same_text-Eq a b h, refl)

same_text_refl : (a : Option String) (b : String) → a ≡ some b → same_text a b ≡ true
same_text_refl a b h = rw h (eq_refl b)

owns-Owned : (doc : Document) (actor : Actor) → owns doc actor ≡ true → Owned doc actor
unfolding owns Owned
owns-Owned doc actor h = elim (Bool-cases (same_text doc.owner_session_id actor.session_id)) [
  | inl t ↦ inl (same_text-Eq _ _ t)
  | inr f ↦ inr (both_same-Eq _ _ (ground (arith, h, f)))
]

Owned-owns : (doc : Document) (actor : Actor) → Owned doc actor → owns doc actor ≡ true
unfolding owns Owned
Owned-owns doc actor (inl h) = rw (same_text_refl _ _ h) refl
Owned-owns doc actor (inr (u, h, k)) = ground (arith, same_text_refl doc.owner_user_id u h, h, k)

handed_reply :
    (row : Option Document) (actor : Actor) (doc : Document)
    → handed row actor ≡ reply doc
    → (row ≡ some doc) × Owned doc actor
unfolding handed owns
handed_reply none actor doc h = cc
handed_reply (some d) actor doc h = elim (Bool-cases (owns d actor)) [
  | inl t ↦ let e : d ≡ doc = cc in (ap some e, subst (λ x. Owned x actor) e (owns-Owned d actor t))
  | inr f ↦ cc
]

handed-Owned :
    (row : Option Document) (actor : Actor) (doc : Document)
    → row ≡ some doc
    → Owned doc actor
    → handed row actor ≡ reply doc
unfolding handed
handed-Owned row actor doc h o = rw (h, Owned-owns doc actor o) refl

handed-cases :
    (row : Option Document) (actor : Actor)
    → ((d : Document) × (handed row actor ≡ reply d)) ⊎ (handed row actor ≡ fail 404)
unfolding handed
handed-cases none actor = inr refl
handed-cases (some d) actor = elim (Bool-cases (owns d actor)) [
  | inl t ↦ inl (d, rw t refl)
  | inr f ↦ inr (rw f refl)
]

-- The document of an id is handed out exactly if there is one and the actor's session or the actor's
-- user owns it; in every other case, missing or a stranger's, the answer is the same 404.
pub get_owned_document_lem :
    (docs : Map Document) (doc_id : String) (actor : Actor) (doc : Document)
    → ((get_owned_document docs doc_id actor ≡ reply doc)
        ↔ ((docs doc_id ≡ some doc) × Owned doc actor))
      × (((d : Document) × (get_owned_document docs doc_id actor ≡ reply d))
          ⊎ (get_owned_document docs doc_id actor ≡ fail 404))
unfolding get_owned_document handed
get_owned_document_lem docs doc_id actor doc = (
  (handed_reply (docs doc_id) actor doc, λ (h, o). handed-Owned (docs doc_id) actor doc h o),
  handed-cases (docs doc_id) actor,
)
