-- ===== src/Asset/Reconciliation/Classification/Once.antt =====
-- asset/reconciliation/classification.py: no record and no observation is the subject of two decisions.
use redline_os.Prelude.{
  ℕ, ◌+◌, ◌≤◌, String, Bool, true, false, ◌||◌, List, [], ◌∷◌, ◌++◌, ◌≡◌, refl, sym, inl, inr, ◌==◌,
  string_eq, Bool-cases, any, count, arith, eq_of_==,
}
use redline_os.Exec.{Exec}
use redline_os.Exec.Preserves.{Preserves, Preserves-bind}
use redline_os.Asset.Reconciliation.Models.{
  PlanSubject, registry_record, observed, ClassificationDecision,
}
use redline_os.Asset.Reconciliation.Pairs.{member}
use redline_os.Asset.Reconciliation.Classification.{
  Claims, meets, decided, decide, decide_unclaimed, for_each,
}

abbrev pub is_record_subject : String → PlanSubject → Bool
is_record_subject a (registry_record b) = b == a
is_record_subject a _ = false

abbrev pub is_observed_subject : String → PlanSubject → Bool
is_observed_subject o (observed p) = p == o
is_observed_subject o _ = false

abbrev pub is_record : String → ClassificationDecision → Bool
is_record a d = is_record_subject a d.subject

abbrev pub is_observed : String → ClassificationDecision → Bool
is_observed o d = is_observed_subject o d.subject

abbrev pub one_if : Bool → ℕ
one_if true = 1
one_if false = 0

-- At most one decision on each id, and none on an id that is not claimed.
abbrev pub IsOnce : Claims → Type 0
IsOnce s =
    (a : String)
    → (count (is_record a) s.decisions ≤ one_if (member a s.asset_ids))
      × (count (is_observed a) s.decisions ≤ one_if (member a s.observation_ids))

-- The ids of the subject are among those that the decision claims.
abbrev pub IsOwn : PlanSubject → List String → List String → Type 0
IsOwn subject assets observations =
    (a : String)
    → (is_record_subject a subject ≡ true → member a assets ≡ true)
      × (is_observed_subject a subject ≡ true → member a observations ≡ true)

member-append :
    (a : String) (xs ys : List String) → member a (xs ++ ys) ≡ (member a xs || member a ys)
unfolding any
member-append a [] ys = refl
member-append a (x ∷ xs) ys = ground (arith, member-append a xs ys)

meets-member :
    (a : String) (xs ys : List String)
    → meets xs ys ≡ false
    → member a xs ≡ true
    → member a ys ≡ false
unfolding any
meets-member a [] ys h e = ground arith
meets-member a (x ∷ xs) ys h e = elim (Bool-cases (x == a)) [
  | inl same ↦ ground (arith, sym (eq_of_== x a same), h)
  | inr other ↦ meets-member a xs ys (ground (arith, h)) (ground (arith, e, other))
]

-- One more decision, of which the id is claimed with it and was not before.
one_more :
    (n : ℕ) (p old new : Bool)
    → n ≤ one_if old
    → (p ≡ true → (new ≡ true) × (old ≡ false))
    → n + one_if p ≤ one_if (new || old)
one_more n p old new h g = elim (Bool-cases p) [
  | inl e ↦ ground (arith, g e)
  | inr e ↦ ground (arith, e)
]

count-snoc :
    (p : ClassificationDecision → Bool) (ds : List ClassificationDecision)
    (d : ClassificationDecision)
    → count p (ds ++ d ∷ []) ≡ count p ds + one_if (p d)
unfolding count
count-snoc p [] d = ground arith
count-snoc p (e ∷ ds) d = ground (arith, count-snoc p ds d)

pub decided-IsOnce :
    (d : ClassificationDecision) (assets observations : List String) (s : Claims)
    → IsOwn d.subject assets observations
    → ((a : String) → is_record a d ≡ true → member a s.asset_ids ≡ false)
    → ((a : String) → is_observed a d ≡ true → member a s.observation_ids ≡ false)
    → IsOnce s
    → IsOnce (decided d assets observations s)
decided-IsOnce d assets observations s own fresh unseen h a = (
  rw (count-snoc (is_record a) s.decisions d, member-append a assets s.asset_ids)
      (one_more (count (is_record a) s.decisions) (is_record a d) (member a s.asset_ids)
        (member a assets) (h a).0 (λ e. ((own a).0 e, fresh a e))),
  rw (count-snoc (is_observed a) s.decisions d, member-append a observations s.observation_ids)
      (one_more (count (is_observed a) s.decisions) (is_observed a d) (member a s.observation_ids)
        (member a observations) (h a).1 (λ e. ((own a).1 e, unseen a e))),
)

or_false : (a b : Bool) → (a || b) ≡ false → (a ≡ false) × (b ≡ false)
or_false a b h = ground arith

pub decide_unclaimed-keeps :
    (d : ClassificationDecision) (assets observations : List String)
    → IsOwn d.subject assets observations
    → Preserves IsOnce (decide_unclaimed d assets observations)
unfolding decide_unclaimed decide
decide_unclaimed-keeps d assets observations own = record {
  at = λ s h. elim (Bool-cases (meets assets s.asset_ids || meets observations s.observation_ids)) [
    | inl e ↦ rw e h
    | inr e ↦ rw e (
        decided-IsOnce d assets observations s own
          (λ a p. meets-member a assets s.asset_ids (or_false _ _ e).0 ((own a).0 p))
          (λ a p. meets-member a observations s.observation_ids (or_false _ _ e).1 ((own a).1 p)) h)
  ];
}

pub for_each-keeps {ℓ} :
    {A : Type ℓ} (body : A → Exec Claims (Unit {0})) (xs : List A)
    → ((x : A) → Preserves IsOnce (body x))
    → Preserves IsOnce (for_each body xs)
unfolding for_each
for_each-keeps body [] h = record { at = λ s p. p }
for_each-keeps body (x ∷ xs) h =
    Preserves-bind (body x) (λ _. for_each body xs) (h x) (λ _. for_each-keeps body xs h)
