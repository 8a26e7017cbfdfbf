-- ===== src/Vfio/Setup.antt =====
-- Setting a group up and destroying it.
use gpp_aioptool.Base.{
  ℕ, ◌<◌, ◌≡◌, ◌⊎◌, inl, inr, refl, true, false, not, Option, none, some, ℤ, is_zero, is_neg,
  same_int, arith, Text, length, pure, and_then, ◌>>=◌, Returns, Returns-bind, Returns-mono, codes,
  ◌++◌, Bool-cases, if◌then◌else◌,
}
use gpp_aioptool.Os.{call}
use gpp_aioptool.Vfio.{
  Kernel, VfioTables, vfio_path_max, vfio_success, vfio_failure, vfio_set_group, path_with,
  find_group, clean_up, setup_found, fsl_vfio_setup, fsl_vfio_destroy,
}
use gpp_aioptool.Vfio.Tables.{IsConsistent, Sets, put_group_lem, vfio_set_group_lem}

module _ {S : Type 0} (kernel : Kernel S) where
  -- What `fsl_vfio_setup` owes: a handle to a group in use, or none.
  abbrev pub SetUp : Option ℕ × VfioTables → S → Type 0
  SetUp (handle, t') s' =
      IsConsistent t' × ((handle ≡ none) ⊎ ((handle ≡ some 0) × (t'.group.used ≡ true)))

  abbrev Cleaned : Option ℕ × VfioTables → S → Type 0
  Cleaned (handle, t') s' = IsConsistent t' × (handle ≡ none) × (t'.group.used ≡ false)

  clean_up_lem : (t : VfioTables) (s : S) → IsConsistent t → Returns Cleaned (clean_up kernel t s)
  unfolding clean_up
  clean_up_lem t s v =
      Returns-bind _ Cleaned _ (λ t'. pure (none, t')) (put_group_lem kernel t s v)
        (λ t' s' p. (p.0, refl, p.1))

  clean_up-SetUp : (t : VfioTables) (s : S) → IsConsistent t → Returns SetUp (clean_up kernel t s)
  clean_up-SetUp t s v =
      Returns-mono _ SetUp _ (λ (handle, t') s' p. (p.0, inl p.1)) (clean_up_lem t s v)

  -- From the group's number on.
  setup_group :
      (name : Text) (groupid : ℤ) (t : VfioTables) (s : S)
      → t.group.used ≡ false
      → IsConsistent t
      → Returns SetUp (
          and_then (vfio_set_group kernel groupid t s) (λ (err, t1).
            if not (is_zero err) then clean_up kernel t1 else do
              ret ← call (kernel.group_get_device_fd t1.group.fd name)
              if is_neg ret
                  then clean_up kernel t1
                  else pure (some 0, record t1 { container_device_fd = ret })))
  setup_group name groupid t s unused v =
      Returns-bind (Sets kernel) SetUp _ _ (vfio_set_group_lem kernel groupid t s unused v)
        (λ (err, t1) s' p. elim (Bool-cases (is_zero err)) [
          | inr failed ↦ rw failed (clean_up-SetUp t1 s' p.0)
          | inl ok ↦
              rw ok (elim (Bool-cases (is_neg (kernel.group_get_device_fd t1.group.fd name s').0)) [
                | inl missing ↦ rw missing (clean_up-SetUp t1 _ p.0)
                | inr there ↦ rw there (
                  record { fresh = p.0.fresh; in_use = p.0.in_use },
                  inr (refl, now_used err t1 p.1 ok),
                )
              ])
        ])
    where
      now_used :
          (err : ℤ) (t1 : VfioTables)
          → ((err ≡ vfio_success) × (t1.group.used ≡ true))
            ⊎ ((err ≡ vfio_failure) × (t1.group.used ≡ false))
          → is_zero err ≡ true
          → t1.group.used ≡ true
      now_used err t1 p ok = ground (arith, p, ok)

  find_group_lem :
      (name : Text) (s : S)
      → length name < 76
      → ((path : Text) (u : S) → length (kernel.readlink path vfio_path_max u).0.1 < vfio_path_max)
      → Returns (λ found s'. Unit {0}) (find_group kernel name s)
  unfolding find_group
  find_group_lem name s named short =
      let path = codes "/sys/bus/fsl-mc/devices/" ++ name in
      ground (arith, named, short (path_with path (codes "/iommu_group")) (kernel.stat path s).1)

  setup_found-SetUp :
      (name : Text) (t : VfioTables) (found : Option ℤ) (s : S)
      → IsConsistent t
      → Returns SetUp (setup_found kernel name t found s)
  unfolding setup_found
  setup_found-SetUp name t none s v = (v, inl refl)
  setup_found-SetUp name t (some groupid) s v = by_use t v (Bool-cases t.group.used)
    where
      same_or_other :
          (u : VfioTables)
          → IsConsistent u
          → u.group.used ≡ true
          → Returns SetUp
              ((if same_int u.group.groupid groupid then pure (some 0, u) else clean_up kernel u) s)
      same_or_other u w used = elim (Bool-cases (same_int u.group.groupid groupid)) [
        | inl same ↦ rw same (w, inr (refl, used))
        | inr other ↦ rw other (clean_up-SetUp u s w)
      ]

      by_use :
          (u : VfioTables)
          → IsConsistent u
          → (u.group.used ≡ true) ⊎ (u.group.used ≡ false)
          → Returns SetUp (setup_found kernel name u (some groupid) s)
      by_use u w (inr unused) = simp (unused) (setup_group name groupid u s unused w)
      by_use u w (inl used) = simp (used) (same_or_other u w used)

  -- From consistent tables, and with links of fewer than 100 bytes, setting up a container with a
  -- name of fewer than 76 bytes returns without an error of memory, leaves the tables consistent,
  -- and gives either no handle or the handle of a group that is in use.
  pub fsl_vfio_setup-SetUp :
      (name : Text) (t : VfioTables) (s : S)
      → length name < 76
      → ((path : Text) (u : S) → length (kernel.readlink path vfio_path_max u).0.1 < vfio_path_max)
      → IsConsistent t
      → Returns SetUp (fsl_vfio_setup kernel name t s)
  unfolding fsl_vfio_setup
  fsl_vfio_setup-SetUp name t s named short v =
      Returns-bind (λ found s'. Unit {0}) SetUp _ _ (find_group_lem name s named short)
        (λ found s' p. setup_found-SetUp name t found s' v)

  -- From consistent tables in which a group is in use, setting up a container of another group
  -- gives no handle, and the group that was in use no longer is.
  pub setup_found-other_group :
      (name : Text) (groupid : ℤ) (t : VfioTables) (s : S)
      → IsConsistent t
      → t.group.used ≡ true
      → same_int t.group.groupid groupid ≡ false
      → Returns
          (λ (handle, t') s'. (handle ≡ none) × (t'.group.used ≡ false))
          (setup_found kernel name t (some groupid) s)
  unfolding setup_found
  setup_found-other_group name groupid t s v used other =
      simp (used, other)
        (Returns-mono Cleaned (λ (handle, t') s'. (handle ≡ none) × (t'.group.used ≡ false)) _
          (λ (handle, t') s' p. (p.1, p.2)) (clean_up_lem t s v))

  -- From consistent tables, destroying a handle succeeds, leaves the tables consistent and no
  -- group in use.
  pub fsl_vfio_destroy-IsConsistent :
      (handle : ℕ) (t : VfioTables) (s : S)
      → IsConsistent t
      → Returns
          (λ (r, t') s'. IsConsistent t' × (r ≡ vfio_success) × (t'.group.used ≡ false))
          (fsl_vfio_destroy kernel (some handle) t s)
  unfolding fsl_vfio_destroy
  fsl_vfio_destroy-IsConsistent handle t s v =
      Returns-bind _ (λ (r, t') s'. IsConsistent t' × (r ≡ vfio_success) × (t'.group.used ≡ false))
        _ (λ t'. pure (vfio_success, t')) (put_group_lem kernel t s v) (λ t' s' p. (p.0, refl, p.1))
