-- ===== src/Ebpf/Mapper/Indexing.antt =====
-- internal/ebpf/mapper.go: the containers of a pod that was added are in the index.
use mathlib.Core.Option.{some_inj}
use self_healing_kubernetes.Base.{
  ℕ, zero, suc, ◌≡◌, refl, sym, inl, inr, ◌⊎◌, Bool, true, false, not, ◌&&◌, ◌||◌, Option, none,
  some, List, [], ◌∷◌, ◌++◌, any, all, arith, get_elem?, length, if◌then◌else◌, ltb, Keyed, lookup,
  insert, lookup-insert, nat_Eq, Time, Bool-cases,
}
use self_healing_kubernetes.Base.Bytes.{Bytes}
use self_healing_kubernetes.Base.Strings.{bytes_eq, bytes_Eq, bytes_eq_iff}
use self_healing_kubernetes.Cgroup.Pods.{ContainerStatus}
use self_healing_kubernetes.Ebpf.Mapper.{
  PodInfo, Pod, Mapper, normalise_container_id, is_info_of, names_pod, info_of, index_container,
  index_all, object_of,
}
use self_healing_kubernetes.Ebpf.Mapper.Deleting.{ids_of}

-- The identifier is of a container of the pod's status.
abbrev pub is_listed : Bytes → List ContainerStatus → Bool
is_listed id statuses = any (λ k. bytes_eq k id && not (bytes_eq k [])) (ids_of statuses)

-- Each identifier of the status is empty or long enough for the log line.
abbrev pub is_safe : List ContainerStatus → Bool
is_safe statuses = all (λ k. bytes_eq k [] || not (ltb (length k) 12)) (ids_of statuses)

module _ (pod : Pod) where
  names_pod-append :
      (store : List PodInfo) (info : PodInfo) (ref : ℕ)
      → names_pod pod (get_elem? store ref) ≡ true
      → names_pod pod (get_elem? (store ++ info ∷ []) ref) ≡ true
  names_pod-append [] info ref h = cc
  names_pod-append (x ∷ store) info zero h = h
  names_pod-append (x ∷ store) info (suc ref) h = names_pod-append store info ref h

  names_pod-last :
      (store : List PodInfo) (info : PodInfo)
      → is_info_of pod info ≡ true
      → names_pod pod (get_elem? (store ++ info ∷ []) (length store)) ≡ true
  names_pod-last [] info h = h
  names_pod-last (x ∷ store) info h = names_pod-last store info h

  info_of-is_info_of :
      (now : Time) (cs : ContainerStatus) → is_info_of pod (info_of now pod cs) ≡ true
  info_of-is_info_of now cs =
      ground (arith, bytes_eq_iff pod.name pod.name, bytes_eq_iff pod.namespace pod.namespace)

  -- The object of the container is of the pod.
  abbrev pub PointsTo : Bytes → Mapper → Type 0
  PointsTo id m = names_pod pod (object_of m (lookup id m.container_index)) ≡ true

  object_of-append :
      (m : Mapper) (info : PodInfo) (index : Keyed Bytes ℕ) (o : Option ℕ)
      → names_pod pod (object_of m o) ≡ true
      → names_pod pod
          (object_of (record m { store = m.store ++ info ∷ []; container_index = index }) o)
        ≡ true
  object_of-append m info index none h = cc
  object_of-append m info index (some ref) h = names_pod-append m.store info ref h

  indexed-PointsTo :
      (now : Time) (cs : ContainerStatus) (m : Mapper) (k id : Bytes)
      → (bytes_eq k id ≡ true) ⊎ PointsTo id m
      → PointsTo id (record m {
        store = m.store ++ info_of now pod cs ∷ [];
        container_index = insert k (length m.store) m.container_index;
      })
  indexed-PointsTo now cs m k id h = elim (Bool-cases (bytes_eq k id)) [
    | inl e ↦
        rw (lookup-insert k id (length m.store) m.container_index)
          (rw e (names_pod-last m.store (info_of now pod cs) (info_of-is_info_of now cs)))
    | inr e ↦ rw (lookup-insert k id (length m.store) m.container_index) (
        rw e (
          object_of-append m (info_of now pod cs) (insert k (length m.store) m.container_index)
            (lookup id m.container_index) (elim h [ inl t ↦ cc | inr p ↦ p ])))
  ]

  guarded-PointsTo :
      (empty short : Bool) (m new next : Mapper) (id : Bytes)
      → (if empty then some m else if short then none else some new) ≡ some next
      → (empty ≡ true → PointsTo id m)
      → (empty ≡ false → PointsTo id new)
      → PointsTo id next
  guarded-PointsTo true short m new next id ran h g = rw (sym (some_inj.0 ran)) (h refl)
  guarded-PointsTo false true m new next id ran h g = cc
  guarded-PointsTo false false m new next id ran h g = rw (sym (some_inj.0 ran)) (g refl)

  index_container-PointsTo :
      (now : Time) (cs : ContainerStatus) (m next : Mapper) (id : Bytes)
      → index_container now pod cs m ≡ some next
      → (is_listed id (cs ∷ []) ≡ true) ⊎ PointsTo id m
      → PointsTo id next
  index_container-PointsTo now cs m next id ran h =
      let k = normalise_container_id cs.container_id in
      guarded-PointsTo (bytes_eq k []) (ltb (length k) 12) m
        (record m {
          store = m.store ++ info_of now pod cs ∷ [];
          container_index = insert k (length m.store) m.container_index;
        })
        next id ran (λ e. elim h [ inl t ↦ ground (arith, t, e) | inr p ↦ p ])
        (λ e.
          indexed-PointsTo now cs m k id
            (elim h [ inl t ↦ inl (ground (arith, t, e)) | inr p ↦ inr p ]))

  next_of-PointsTo :
      (now : Time) (statuses : List ContainerStatus) (o : Option Mapper) (next : Mapper)
      (id : Bytes)
      → elim o [ none ↦ none | some mid ↦ index_all now pod statuses mid ] ≡ some next
      → ((mid : Mapper)
          → o ≡ some mid
          → index_all now pod statuses mid ≡ some next
          → PointsTo id next)
      → PointsTo id next
  next_of-PointsTo now statuses none next id ran h = cc
  next_of-PointsTo now statuses (some mid) next id ran h = h mid refl ran

  pub index_all-PointsTo :
      (now : Time) (statuses : List ContainerStatus) (m next : Mapper) (id : Bytes)
      → index_all now pod statuses m ≡ some next
      → (is_listed id statuses ≡ true) ⊎ PointsTo id m
      → PointsTo id next
  unfolding index_all
  index_all-PointsTo now [] m next id ran h =
      rw (sym (some_inj.0 ran)) (elim h [ inl t ↦ cc | inr p ↦ p ])
  index_all-PointsTo now (cs ∷ statuses) m next id ran h =
      next_of-PointsTo now statuses (index_container now pod cs m) next id ran (λ mid e rest.
        index_all-PointsTo now statuses mid next id rest (elim h [
          | inr p ↦ inr (index_container-PointsTo now cs m mid id e (inr p))
          | inl t ↦ elim (Bool-cases (is_listed id statuses)) [
            | inl u ↦ inl u
            | inr u ↦ inr (index_container-PointsTo now cs m mid id e (inl (ground (arith, t, u))))
          ]
        ]))

  index_container-returns :
      (now : Time) (cs : ContainerStatus) (m : Mapper)
      → is_safe (cs ∷ []) ≡ true
      → ¬ (index_container now pod cs m ≡ none)
  index_container-returns now cs m safe =
      elim (Bool-cases (bytes_eq (normalise_container_id cs.container_id) [])) [
        | inl e ↦ rw e (λ h. cc)
        | inr e ↦ rw e (λ h. ground (arith, safe, h))
      ]

  next_of-returns :
      (now : Time) (statuses : List ContainerStatus) (o : Option Mapper)
      → ¬ (o ≡ none)
      → ((mid : Mapper) → ¬ (index_all now pod statuses mid ≡ none))
      → ¬ (elim o [ none ↦ none | some mid ↦ index_all now pod statuses mid ] ≡ none)
  next_of-returns now statuses none h k = λ _. h refl
  next_of-returns now statuses (some mid) h k = k mid

  -- If each identifier of the status is empty or has 12 bytes or more, the event is handled without a panic.
  pub index_all-returns :
      (now : Time) (statuses : List ContainerStatus) (m : Mapper)
      → is_safe statuses ≡ true
      → ¬ (index_all now pod statuses m ≡ none)
  unfolding index_all
  index_all-returns now [] m safe = λ h. cc
  index_all-returns now (cs ∷ statuses) m safe =
      next_of-returns now statuses (index_container now pod cs m)
        (index_container-returns now cs m (ground (arith, safe)))
        (λ mid. index_all-returns now statuses mid (ground (arith, safe)))
