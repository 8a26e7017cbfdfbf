-- ===== src/Aiop/Setup/Used.antt =====
-- `setup_aiopt_device` after its loop: the object is ready for the operations of the library, or the
-- names of its devices are given up.
use gpp_aioptool.Base.{
  ℕ, ◌≡◌, ◌⊎◌, inl, inr, refl, arith, sym, subst, ap, ◌∙◌, ◌||◌, not, true, false, Option, none,
  some, ℤ, is_zero, Text, Returns, Returns-if, Returns-bind, Returns-mono, pure, ◌>>=◌, and_then,
  if◌then◌else◌,
}
use gpp_aioptool.Os.{Os}
use gpp_aioptool.Vfio.{Kernel, VfioTables}
use gpp_aioptool.Vfio.Device.{map_region}
use gpp_aioptool.Dpaiop.Types.{IsInt}
use gpp_aioptool.Dpaiop.Server.{Server, Serves}
use gpp_aioptool.Aiop.Types.{AioptObj, with_token, aiopt_success, aiopt_failure}
use gpp_aioptool.Aiop.Setup.{Dirs, setup_mc_portal, init_aiop}
use gpp_aioptool.Aiop.Setup.Filled.{text_of}
use gpp_aioptool.Aiop.Setup.Found.{is_set, first_of, IsFound, Finds}
use gpp_aioptool.Aiop.Setup.Start.{init_aiop_keeps}
use gpp_aioptool.Aiop.Setup.Devices.{Search, give_up_device, use_devices}
use gpp_aioptool.Aiop.Setup.Portal.{
  IsReady, IsNameless, Maps, give_up_device-IsNameless, setup_mc_portal-Maps,
}

module _ {S : Type 0} (os : Os S) (kernel : Kernel S) (dirs : Dirs S) (polls : ℕ) (unset : ℤ)
    (serve : Server S)
    (portal : (fd : ℤ) (u s : S) (addr : ℕ)
      → (map_region kernel fd (kernel.device_get_region_info fd u).0.1 s).0 ≡ some addr
      → Serves os.device polls addr serve) where
  -- A device that is set up, or given up without its names.
  abbrev pub SetsUp : (handle : Option ℕ) → (mcp aiop : Option Text) → ℤ × AioptObj → S → Type 0
  SetsUp handle mcp aiop (r, obj') s' =
      ((r ≡ aiopt_success)
        × (m : Text) × (a : Text) × (mcp ≡ some m)
        × (aiop ≡ some a)
        × IsReady os polls serve handle m a obj')
      ⊎ ((r ≡ aiopt_failure) × IsNameless obj')

  give_up-SetsUp :
      (handle : Option ℕ) (mcp aiop : Option Text) (obj : AioptObj) (s : S)
      → Returns (SetsUp handle mcp aiop) (give_up_device os kernel dirs polls unset obj s)
  give_up-SetsUp handle mcp aiop obj s =
      Returns-mono _ (SetsUp handle mcp aiop) _ (λ (r, obj') s' p. inr p)
        (give_up_device-IsNameless os kernel dirs polls unset serve portal obj s)

  served_if :
      (ret : ℤ) (addr : ℕ)
      → ((ret ≡ aiopt_success) × Serves os.device polls addr serve) ⊎ (ret ≡ aiopt_failure)
      → not (is_zero ret) ≡ false
      → Serves os.device polls addr serve
  served_if ret addr (inl p) mapped = p.1
  served_if ret addr (inr e) mapped = absurd (ground (arith, e, mapped))

  -- The last step, once the portal is mapped.
  init_lem :
      (handle : Option ℕ) (m a : Text) (obj : AioptObj) (s : S)
      → IsReady os polls serve handle m a obj
      → Returns (SetsUp handle (some m) (some a)) (
          and_then (init_aiop os kernel dirs polls obj s) (λ (ret1, obj2).
            if not (is_zero ret1)
            then give_up_device os kernel dirs polls unset obj2
            else pure (aiopt_success, obj2)))
  init_lem handle m a obj s ready =
      Returns-bind (λ (r, obj2) u. obj2 ≡ with_token obj obj2.aiop.token)
        (SetsUp handle (some m) (some a)) _ _
        (init_aiop_keeps os kernel dirs polls serve obj ready.id ready.served s)
        (λ (ret1, obj2) s2 keeps.
          Returns-if (SetsUp handle (some m) (some a)) (not (is_zero ret1)) _ _ s2
            (λ failed. give_up-SetsUp handle (some m) (some a) obj2 s2)
            (λ started.
              let all : SetsUp handle (some m) (some a) (aiopt_success, obj2) s2 = inl (
                refl,
                m,
                a,
                refl,
                refl,
                subst (IsReady os polls serve handle m a) (sym keeps) (record {
                  handled = ready.handled;
                  mcp_name = ready.mcp_name;
                  aiop_name = ready.aiop_name;
                  id = ready.id;
                  served = ready.served;
                }),
              ) in
              all))

  -- The portal and the AIOP device, once the devices are found.
  start_lem :
      (t : VfioTables) (obj : AioptObj) (m a : Text) (s : S)
      → text_of obj.mcp.name ≡ some m
      → text_of obj.aiop.name ≡ some a
      → IsInt obj.aiop.id
      → Returns (SetsUp obj.vfio_handle (some m) (some a)) (
          and_then (setup_mc_portal os kernel dirs polls obj t s) (λ (ret, obj1).
            if not (is_zero ret) then give_up_device os kernel dirs polls unset obj1 else do
              (ret1, obj2) ← init_aiop os kernel dirs polls obj1
              if not (is_zero ret1)
                  then give_up_device os kernel dirs polls unset obj2
                  else pure (aiopt_success, obj2)))
  start_lem t obj m a s mcp aiop id =
      Returns-bind (Maps os kernel dirs polls unset serve portal obj)
        (SetsUp obj.vfio_handle (some m) (some a)) _ _
        (setup_mc_portal-Maps os kernel dirs polls unset serve portal obj t s _ refl)
        (λ (ret, obj1) s1 p.
          Returns-if (SetsUp obj.vfio_handle (some m) (some a)) (not (is_zero ret)) _ _ s1
            (λ failed. give_up-SetsUp obj.vfio_handle (some m) (some a) obj1 s1)
            (λ mapped. init_lem obj.vfio_handle m a obj1 s1 (record {
              handled = ap (λ (o : AioptObj). o.vfio_handle) p.0;
              mcp_name = ap (λ (o : AioptObj). text_of o.mcp.name) p.0 ∙ mcp;
              aiop_name = ap (λ (o : AioptObj). text_of o.aiop.name) p.0 ∙ aiop;
              id = subst (λ (o : AioptObj). IsInt o.aiop.id) (sym p.0) id;
              served = served_if ret obj1.mcp_addr p.1 mapped;
            })))

  use_found :
      (t : VfioTables) (obj : AioptObj) (mcp aiop : Option Text) (s : S)
      → text_of obj.mcp.name ≡ mcp
      → text_of obj.aiop.name ≡ aiop
      → is_set mcp ≡ true
      → is_set aiop ≡ true
      → IsInt obj.aiop.id
      → Returns (SetsUp obj.vfio_handle mcp aiop) (
          and_then (setup_mc_portal os kernel dirs polls obj t s) (λ (ret, obj1).
            if not (is_zero ret) then give_up_device os kernel dirs polls unset obj1 else do
              (ret1, obj2) ← init_aiop os kernel dirs polls obj1
              if not (is_zero ret1)
                  then give_up_device os kernel dirs polls unset obj2
                  else pure (aiopt_success, obj2)))
  use_found t obj (some m) (some a) s mcp_name aiop_name f g id =
      start_lem t obj m a s mcp_name aiop_name id
  use_found t obj none aiop s mcp_name aiop_name f g id = absurd (ground (arith, f))
  use_found t obj (some m) none s mcp_name aiop_name f g id = absurd (ground (arith, g))

  -- After the loop, which found what `mcp` and `aiop` say if no device failed.
  pub use_devices-SetsUp :
      (d : ℕ) (t : VfioTables) (mcp aiop : Option Text) (w w' : Search) (s : S)
      → IsNameless w.obj
      → Finds mcp aiop w w' s
      → Returns
          (SetsUp w.obj.vfio_handle mcp aiop)
          (use_devices os kernel dirs polls unset d t w' s)
  unfolding use_devices
  use_devices-SetsUp d t mcp aiop w w' s nameless found =
      Returns-if Goal (not w'.ok) _ _ s (λ failed. give_up-SetsUp _ mcp aiop w'.obj s)
        (λ passed.
          let f : IsFound mcp aiop w w' = found.1 (ground (arith, passed)) in
          let mcp_name : text_of w'.obj.mcp.name ≡ mcp =
            f.mcp_name ∙ ap (λ n. first_of (text_of n) mcp) nameless.0 in
          let aiop_name : text_of w'.obj.aiop.name ≡ aiop =
            f.aiop_name ∙ ap (λ n. first_of (text_of n) aiop) nameless.1 in
          Returns-if Goal (not w'.mcp_avail || not w'.aiop_avail) _ _ _
            (λ missing. give_up-SetsUp _ mcp aiop w'.obj _)
            (λ there.
              Returns-mono (SetsUp w'.obj.vfio_handle mcp aiop) Goal _
                (λ r u p. subst (λ h. SetsUp h mcp aiop r u) found.0 p)
                (use_found t w'.obj mcp aiop (dirs.closedir d s) mcp_name aiop_name
                  (sym (ap is_set mcp_name) ∙ sym f.tracked.mcp ∙ ground (arith, there))
                  (sym (ap is_set aiop_name) ∙ sym f.tracked.aiop ∙ ground (arith, there))
                  (f.tracked.id (ground (arith, there))))))
    where
      Goal : ℤ × AioptObj → S → Type 0
      Goal = SetsUp w.obj.vfio_handle mcp aiop
