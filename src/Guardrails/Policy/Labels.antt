-- ===== src/Guardrails/Policy/Labels.antt =====
-- What the two protection queries of the policy decide, in terms of the lists in the file.
use mathlib.Core.List.{Memᴰ}
use self_healing_kubernetes.Base.{
  String, ◌≡◌, refl, sym, subst, ◌↔◌, Bool, true, some, List, [], ◌∷◌, arith, any, ◌==◌, string_Eq,
  inl, inr, Bool-cases, Option-cases, Keyed, lookup,
}
use self_healing_kubernetes.Guardrails.Policy.{
  Policy, ProtectedLabel, is_protected_namespace, label_matches, is_protected_pod,
}

-- A list search answers yes exactly when it holds an element that passes.
pub any_iff {ℓ} :
    {A : Type ℓ} (p : A → Bool) (xs : List A)
    → (any p xs ≡ true) ↔ ((x : A) × Memᴰ x xs × (p x ≡ true))
any_iff {A = A} p xs = (found xs, λ t. shown xs t.0 t.1 t.2)
  where
    found : (xs : List A) → any p xs ≡ true → (x : A) × Memᴰ x xs × (p x ≡ true)
    found [] h = absurd (ground arith)
    found (x ∷ xs) h = elim (Bool-cases (p x)) [
      | inl e ↦ (x, Memᴰ.head refl, e)
      | inr e ↦ let (y, m, q) = found xs (ground arith) in (y, Memᴰ.tail m, q)
    ]

    shown : (xs : List A) (x : A) → Memᴰ x xs → p x ≡ true → any p xs ≡ true
    shown [] x m h = elim m [ ]
    shown (y ∷ xs) x (Memᴰ.head e) h = ground arith
    shown (y ∷ xs) x (Memᴰ.tail m) h = rw (shown xs x m h) (ground arith)

label_matches_iff :
    (labels : Keyed String String) (l : ProtectedLabel)
    → (label_matches labels l ≡ true) ↔ (lookup l.key labels ≡ some l.value)
unfolding label_matches
label_matches_iff labels l = elim (Option-cases (lookup l.key labels)) [
  | inl e ↦ (ground arith, ground arith)
  | inr (v, e) ↦
      (ground (arith, string_Eq.equal_iff v l.value), ground (arith, string_Eq.equal_iff v l.value))
]

-- A pod is protected exactly when one of the policy's label rules names a label of the pod with
-- that very value; a namespace is protected exactly when the policy lists it.
protection_iff :
    (p : Policy) (namespace : String) (labels : Keyed String String)
    → ((is_protected_namespace p namespace ≡ true) ↔ Memᴰ namespace p.protected_namespaces)
      × ((is_protected_pod p labels ≡ true) ↔ (
          (l : ProtectedLabel) × Memᴰ l p.protected_labels × (lookup l.key labels ≡ some l.value)))
unfolding is_protected_namespace is_protected_pod
protection_iff p namespace labels = (
  (
    λ h.
        let (x, m, e) = namespaces.0 h in
        subst (λ y. Memᴰ y p.protected_namespaces) (sym ((string_Eq.equal_iff namespace x).0 e)) m,
    λ m. namespaces.1 (namespace, m, (string_Eq.equal_iff namespace namespace).1 refl),
  ),
  (
    λ h. let (l, m, e) = rules.0 h in (l, m, (label_matches_iff labels l).0 e),
    λ (l, m, e). rules.1 (l, m, (label_matches_iff labels l).1 e),
  ),
)
  where
    namespaces :
        (any (λ protected. namespace == protected) p.protected_namespaces ≡ true)
        ↔ ((x : String) × Memᴰ x p.protected_namespaces × ((namespace == x) ≡ true))
    namespaces = any_iff (λ x. namespace == x) p.protected_namespaces

    rules :
        (any (label_matches labels) p.protected_labels ≡ true)
        ↔ ((l : ProtectedLabel) × Memᴰ l p.protected_labels × (label_matches labels l ≡ true))
    rules = any_iff (label_matches labels) p.protected_labels
