-- ===== src/Aiop/Ledger/Blocks/Init.antt =====
-- `aiopt_init`: the memory that is held when it returns.
use gpp_aioptool.Base.{
  ℕ, ◌≡◌, ◌≢◌, inl, inr, subst, refl, arith, ◌++◌, ◌==◌, not, false, Option, none, some, is_zero,
  is_neg, same_int, if◌then◌else◌, IfDone-mono, ℤ, [], ◌∷◌, Text, IfDone, IfDone-if, IfDone-bind,
}
use gpp_aioptool.Os.{Os}
use gpp_aioptool.Vfio.{
  Kernel, VfioTables, vfio_connect_container, take_container, vfio_set_group, fail_group,
  vfio_put_group, vfio_disconnect_container, find_group, clean_up, setup_found, fsl_vfio_setup,
}
use gpp_aioptool.Aiop.Types.{AioptObj}
use gpp_aioptool.Aiop.Setup.{Dirs, sizeof_aiopt_obj}
use gpp_aioptool.Aiop.Setup.Devices.{with_handle, aiopt_init}
use gpp_aioptool.Aiop.Ledger.Frame.{Same, Same-bind}
use gpp_aioptool.Aiop.Ledger.Blocks.{Blocks, block_taken, blocks_os, beside_kernel, beside_dirs}
use gpp_aioptool.Aiop.Ledger.Blocks.Gains.{
  Gains, block_of, Gains-nothing, Gains-block_taken, Gains-block_freed,
}
use gpp_aioptool.Aiop.Ledger.Blocks.Setup.{with_names}
use gpp_aioptool.Aiop.Ledger.Blocks.Devices.{SetsUpBlocks, setup_aiopt_device_lem}

-- VFIO allocates nothing.
module _ {S B : Type 0} (kernel : Kernel S) (b : B) where
  vfio_connect_container-Same :
      (t : VfioTables) (s : S)
      → IfDone (Same b) (vfio_connect_container (beside_kernel kernel) t (s, b))
  unfolding vfio_connect_container take_container
  vfio_connect_container-Same t s = ground arith

  vfio_put_group-Same :
      (t : VfioTables) (s : S) → IfDone (Same b) (vfio_put_group (beside_kernel kernel) t (s, b))
  unfolding vfio_put_group vfio_disconnect_container
  vfio_put_group-Same t s = ground arith

  find_group-Same :
      (vfio_container : Text) (s : S)
      → IfDone (Same b) (find_group (beside_kernel kernel) vfio_container (s, b))
  unfolding find_group
  find_group-Same vfio_container s = ground arith

  vfio_set_group-Same :
      (groupid : ℤ) (t : VfioTables) (s : S)
      → IfDone (Same b) (vfio_set_group (beside_kernel kernel) groupid t (s, b))
  unfolding vfio_set_group fail_group
  vfio_set_group-Same groupid t s =
      let opened = kernel.open_group groupid s in
      let status = kernel.group_get_status opened.0 opened.1 in
      IfDone-if (Same b) (is_neg opened.0) _ _ _ (λ missing. refl)
        (λ there.
          IfDone-if (Same b) (not (is_zero status.0.0)) _ _ _ (λ failed. refl)
            (λ known.
              IfDone-if (Same b) (not status.0.1) _ _ _ (λ bad. refl)
                (λ viable.
                  Same-bind b (Same b) _ _ (vfio_connect_container-Same _ status.1) (λ (err, t2) s2.
                    IfDone-if (Same b) (not (is_zero err)) _ _ _ (λ failed. refl) (λ fine. refl)))))

  clean_up-Same :
      (t : VfioTables) (s : S) → IfDone (Same b) (clean_up (beside_kernel kernel) t (s, b))
  unfolding clean_up
  clean_up-Same t s = Same-bind b (Same b) _ _ (vfio_put_group-Same t s) (λ t' u. refl)

  setup_found-Same :
      (vfio_container : Text) (t : VfioTables) (found : Option ℤ) (s : S)
      → IfDone (Same b) (setup_found (beside_kernel kernel) vfio_container t found (s, b))
  unfolding setup_found
  setup_found-Same vfio_container t none s = refl
  setup_found-Same vfio_container t (some groupid) s =
      IfDone-if (Same b) t.group.used _ _ _
        (λ used.
          IfDone-if (Same b) (same_int t.group.groupid groupid) _ _ _ (λ same. refl)
            (λ other. clean_up-Same t s))
        (λ unused. Same-bind b (Same b) _ _ (vfio_set_group-Same groupid t s) (λ (err, t1) s1.
          IfDone-if (Same b) (not (is_zero err)) _ _ _ (λ failed. clean_up-Same t1 s1)
            (λ set.
              let got = kernel.group_get_device_fd t1.group.fd vfio_container s1 in
              IfDone-if (Same b) (is_neg got.0) _ _ _ (λ missing. clean_up-Same t1 got.1)
                (λ there. refl))))

  fsl_vfio_setup-Same :
      (vfio_container : Text) (t : VfioTables) (s : S)
      → IfDone (Same b) (fsl_vfio_setup (beside_kernel kernel) vfio_container t (s, b))
  unfolding fsl_vfio_setup
  fsl_vfio_setup-Same vfio_container t s =
      Same-bind b (Same b) _ _ (find_group-Same vfio_container s)
        (λ found u. setup_found-Same vfio_container t found u)

-- Without an object nothing is gained; with one, its block and those of its names.
abbrev pub GainsObject : {S : Type 0} → Blocks → Option AioptObj × VfioTables → S × Blocks → Type 0
GainsObject b (none, t) (s, c) = Gains [] b c
GainsObject b (some obj, t) (s, c) = (p : ℕ) × (p ≢ 0) × Gains (with_names obj (p ∷ [])) b c

module _ {S : Type 0} (os : Os S) (kernel : Kernel S) (dirs : Dirs S) (polls : ℕ) (unset : ℤ)
    (b : Blocks) where
  -- What is gained if the object is at `p`.
  abbrev InitGains : ℕ → Option AioptObj × VfioTables → S × Blocks → Type 0
  InitGains p (none, t) (s, c) = Gains [] b c
  InitGains p (some obj, t) (s, c) = Gains (with_names obj (block_of p ++ [])) b c

  handle_lem :
      (p : ℕ) (handle : Option ℕ) (t : VfioTables) (s : S) (c : Blocks)
      → Gains (block_of p ++ []) b c
      → IfDone (InitGains p) (
          with_handle
            (blocks_os os)
            (beside_kernel kernel)
            (beside_dirs dirs)
            polls
            unset
            p
            handle
            t
            (s, c))
  unfolding with_handle
  handle_lem p none t s c g = Gains-block_freed p [] b c g
  handle_lem p (some group) t s c g =
      IfDone-bind (SetsUpBlocks os kernel dirs polls unset b (block_of p ++ []) t) (InitGains p) _ _
        (setup_aiopt_device_lem os kernel dirs polls unset b (block_of p ++ []) t (some group) s c
          g)
        (λ (ret, obj) (s1, c1) ends.
          IfDone-if (InitGains p) (not (is_zero ret)) _ _ _
            (λ failed. elim ends [
              | inl (e, g1) ↦ absurd (ground (arith, e, failed))
              | inr (e, g1) ↦ Gains-block_freed p [] b c1 g1
            ])
            (λ worked. elim ends [
              | inl (e, g1) ↦ g1
              | inr (e, g1) ↦ absurd (ground (arith, e, worked))
            ]))

  pub aiopt_init-GainsObject :
      (container_name : Text) (t : VfioTables) (s : S)
      → IfDone (GainsObject b) (
          aiopt_init
            (blocks_os os)
            (beside_kernel kernel)
            (beside_dirs dirs)
            polls
            unset
            container_name
            t
            (s, b))
  unfolding aiopt_init
  aiopt_init-GainsObject container_name t s =
      let p = (os.calloc sizeof_aiopt_obj s).0 in
      let c = block_taken p b in
      IfDone-if (GainsObject b) (p == 0) _ _ _ (λ null. rw null (Gains-nothing b))
        (λ there.
          Same-bind c (GainsObject b) _ _ (fsl_vfio_setup-Same kernel c container_name t _)
            (λ (handle, t1) s1.
              IfDone-mono (InitGains p) (GainsObject b) _
                (λ (got, t2) (s2, c2) g. by_handle p there got t2 s2 c2 g)
                (handle_lem p handle t1 s1 c (Gains-block_taken p [] b b (Gains-nothing b)))))
    where
      by_handle :
          (p : ℕ)
          → (p == 0) ≡ false
          → (got : Option AioptObj) (t2 : VfioTables) (s2 : S) (c2 : Blocks)
          → InitGains p (got, t2) (s2, c2)
          → GainsObject b (got, t2) (s2, c2)
      by_handle p there none t2 s2 c2 g = g
      by_handle p there (some obj) t2 s2 c2 g = (
        p,
        λ e. ground (arith, e, there),
        subst (λ e. Gains (with_names obj ((if e then [] else p ∷ []) ++ [])) b c2) there g,
      )
