-- ===== src/Vfio/Tables.antt =====
-- The tables of groups and containers stay consistent.
use gpp_aioptool.Base.{
  ◌≡◌, ◌⊎◌, inl, inr, refl, true, false, not, ℤ, is_zero, is_neg, arith, pure, Returns,
  Returns-bind, Bool-cases, if◌then◌else◌,
}
use gpp_aioptool.Vfio.{
  Kernel, VfioTables, vfio_success, vfio_failure, take_container, with_group_fd,
  vfio_connect_container, vfio_disconnect_container, vfio_set_group, fail_group, vfio_put_group,
}

-- A container that was never used is at index 0, and the group is in use just if it is connected.
pub record IsConsistent (t : VfioTables) : Type 0 where
  pub fresh : t.container.used ≡ false → t.container.index ≡ 0
  pub in_use : t.group.used ≡ t.group.connected

module _ {S : Type 0} (kernel : Kernel S) where
  -- What connecting keeps: `connected` is set on success and left alone on failure.
  abbrev Connects : VfioTables → ℤ × VfioTables → S → Type 0
  Connects t (r, t') s' =
      (t'.container.used ≡ false → t'.container.index ≡ 0)
      × (t'.group.used ≡ t.group.used)
      × (((r ≡ vfio_success) × (t'.group.connected ≡ true))
          ⊎ ((r ≡ vfio_failure) × (t'.group.connected ≡ t.group.connected)))

  take_container_lem :
      (fd : ℤ) (t : VfioTables) (s : S)
      → IsConsistent t
      → Returns (Connects t) (take_container kernel fd t s)
  unfolding take_container
  take_container_lem fd t s v = ground (arith, v.fresh)

  vfio_connect_container_lem :
      (t : VfioTables) (s : S)
      → IsConsistent t
      → Returns (Connects t) (vfio_connect_container kernel t s)
  unfolding vfio_connect_container
  vfio_connect_container_lem t s v =
      ground (arith, v.fresh, λ (fd : ℤ) (s' : S). take_container_lem fd t s' v)

  pub put_group_lem :
      (t : VfioTables) (s : S)
      → IsConsistent t
      → Returns
          (λ t' s'.
            IsConsistent t' × (t'.group.used ≡ false) × (t'.container.used ≡ t.container.used))
          (vfio_put_group kernel t s)
  unfolding vfio_put_group vfio_disconnect_container
  put_group_lem t s v = ground (arith, v.fresh, v.in_use)

  -- A group that was not in use is in use on success, and not on failure.
  abbrev pub Sets : ℤ × VfioTables → S → Type 0
  Sets (r, t') s' =
      IsConsistent t'
      × (((r ≡ vfio_success) × (t'.group.used ≡ true))
          ⊎ ((r ≡ vfio_failure) × (t'.group.used ≡ false)))

  after_connect :
      (t t' : VfioTables) (r : ℤ) (s : S)
      → t.group.used ≡ false
      → IsConsistent t
      → Connects t (r, t') s
      → Returns Sets (
          (if not (is_zero r)
              then fail_group kernel t'
              else pure (vfio_success, record t' { group = record (t'.group) { used = true } }))
            s)
  unfolding fail_group
  after_connect t t' r s unused v c = ground (arith, v.in_use, c)

  pub vfio_set_group_lem :
      (groupid : ℤ) (t : VfioTables) (s : S)
      → t.group.used ≡ false
      → IsConsistent t
      → Returns Sets (vfio_set_group kernel groupid t s)
  unfolding vfio_set_group fail_group
  vfio_set_group_lem groupid t s unused v =
      let opened = kernel.open_group groupid s in
      let status = kernel.group_get_status opened.0 opened.1 in
      elim (Bool-cases (is_neg opened.0)) [
        | inl missing ↦ rw missing (not_set opened.0, inr (refl, unused))
        | inr there ↦ rw there (elim (Bool-cases (is_zero status.0.0)) [
          | inr failed ↦ rw failed (not_set _, inr (refl, unused))
          | inl ok ↦ rw ok (elim (Bool-cases status.0.1) [
            | inr unviable ↦ rw unviable (not_set _, inr (refl, unused))
            | inl viable ↦ rw viable (
                Returns-bind (Connects (named opened.0)) Sets _ _
                  (vfio_connect_container_lem (named opened.0) status.1 (named_lem opened.0))
                  (λ (r, t') s' c.
                    after_connect (named opened.0) t' r s' unused (named_lem opened.0) c))
          ])
        ])
      ]
    where
      not_set : (fd : ℤ) → IsConsistent (with_group_fd kernel t fd)
      not_set fd = record { fresh = v.fresh; in_use = v.in_use }

      named : ℤ → VfioTables
      named fd = record t { group = record (t.group) { fd = fd; groupid = groupid } }

      named_lem : (fd : ℤ) → IsConsistent (named fd)
      named_lem fd = record { fresh = v.fresh; in_use = v.in_use }

  -- If the container was ever used and the kernel refuses its descriptor, no group can be
  -- connected, and the tables stay as they were.
  pub vfio_connect_container-used :
      (t : VfioTables) (s : S)
      → t.container.used ≡ true
      → is_zero (kernel.group_set_container t.group.fd t.container.fd s).0 ≡ false
      → Returns (λ (r, t') s'. (r ≡ vfio_failure) × (t' ≡ t)) (vfio_connect_container kernel t s)
  unfolding vfio_connect_container take_container
  vfio_connect_container-used t s used refused = ground (arith, used, refused)
