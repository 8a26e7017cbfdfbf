-- ===== src/Aiop/Setup/Search.antt =====
-- The loop of `setup_aiopt_device`: it takes the first device of each of the two kinds.
use gpp_aioptool.Base.{
  ℕ, ◌≡◌, inl, inr, refl, arith, sym, subst, ap, ◌∙◌, ◌&&◌, if◌then◌else◌, not, true, Option, none,
  some, ℤ, List, [], ◌∷◌, Text, Returns, Returns-if, Returns-bind, Returns-mono, Act, pure,
  and_then, ◌>>=◌,
}
use gpp_aioptool.Os.{Os}
use gpp_aioptool.Vfio.{Kernel, VfioTables}
use gpp_aioptool.Dpaiop.Types.{IsInt}
use gpp_aioptool.Aiop.Types.{DpobjType}
use gpp_aioptool.Aiop.Setup.{Dirent, Dirs, begins, dpmcp, dpaiop}
use gpp_aioptool.Aiop.Setup.Filled.{
  text_of, FilledMcp, FilledAiop, fill_obj_info-FilledMcp, fill_obj_info-FilledAiop,
}
use gpp_aioptool.Aiop.Setup.Devices.{Search, try_mcp, try_aiop, search_devices}
use gpp_aioptool.Aiop.Setup.Found.{
  first_of, is_set, name_if, first_named, IsNumbered, AllNumbered, IsTracked, Finds, is_set-none,
  first_of-none, name_if_wanted, first_of-name_if, not_link, IsFound-same, IsFound-trans,
}

module _ {S : Type 0} (os : Os S) (kernel : Kernel S) (dirs : Dirs S) (polls : ℕ) (unset : ℤ)
    (unset_fits : IsInt unset)
    (fits : (text : Text) (n : ℤ) → kernel.scan_int text ≡ some n → IsInt n) (t : VfioTables) where
  try_mcp_lem :
      (dir : Dirent) (w : Search) (s : S)
      → dir.is_link ≡ true
      → (begins dpmcp dir.d_name ≡ true → IsNumbered dir.d_name)
      → w.ok ≡ true
      → IsTracked w
      → Returns (Finds (name_if dpmcp dir) none w) (try_mcp os kernel dirs polls unset dir t w s)
  unfolding try_mcp
  try_mcp_lem dir w s link numbered fine tracked =
      Returns-if (Finds (name_if dpmcp dir) none w) (begins dpmcp dir.d_name && not w.mcp_avail) _ _
        s
        (λ wanted.
          let number = numbered (ground (arith, wanted)) in
          let unnamed : text_of w.obj.mcp.name ≡ none =
            is_set-none _ (ground (arith, wanted, tracked.mcp)) in
          Returns-bind (FilledMcp os kernel dirs polls unset w.obj dir.d_name)
            (Finds (name_if dpmcp dir) none w) _ _
            (fill_obj_info-FilledMcp os kernel dirs polls unset w.obj dir.d_name number.0 t s
              number.1)
            (λ (ret, obj) s' p. elim p.2 [
              | inr failed ↦ rw failed (p.0, λ ok. ground (arith, ok))
              | inl (e, named) ↦ rw e (
                p.0,
                λ ok. record {
                  tracked = record {
                    mcp = sym (ap is_set named);
                    aiop =
                        tracked.aiop ∙ ap (λ (dp : DpobjType). is_set (text_of dp.name)) (sym p.1);
                    id = λ found.
                        subst (λ (dp : DpobjType). IsInt dp.id) (sym p.1) (tracked.id found);
                  };
                  mcp_name =
                      named
                      ∙ sym (
                          ap (λ n. first_of n (name_if dpmcp dir)) unnamed
                          ∙ name_if_wanted dpmcp dir link (ground (arith, wanted)));
                  aiop_name = ap (λ (dp : DpobjType). text_of dp.name) p.1 ∙ sym (first_of-none _);
                },
              )
            ]))
        (λ unwanted. (
          refl,
          λ ok. record {
            tracked = tracked;
            mcp_name = first_of-name_if dpmcp dir _ w.mcp_avail tracked.mcp unwanted;
            aiop_name = sym (first_of-none _);
          },
        ))

  try_aiop_lem :
      (dir : Dirent) (w : Search) (s : S)
      → dir.is_link ≡ true
      → (begins dpaiop dir.d_name ≡ true → IsNumbered dir.d_name)
      → w.ok ≡ true
      → IsTracked w
      → Returns (Finds none (name_if dpaiop dir) w) (try_aiop os kernel dirs polls unset dir t w s)
  unfolding try_aiop
  try_aiop_lem dir w s link numbered fine tracked =
      Returns-if (Finds none (name_if dpaiop dir) w) (begins dpaiop dir.d_name && not w.aiop_avail)
        _ _ s
        (λ wanted.
          let number = numbered (ground (arith, wanted)) in
          let unnamed : text_of w.obj.aiop.name ≡ none =
            is_set-none _ (ground (arith, wanted, tracked.aiop)) in
          Returns-bind (FilledAiop os kernel dirs polls unset w.obj dir.d_name)
            (Finds none (name_if dpaiop dir) w) _ _
            (fill_obj_info-FilledAiop os kernel dirs polls unset w.obj dir.d_name number.0 t s
              number.1 unset_fits fits)
            (λ (ret, obj) s' p. elim p.2 [
              | inr failed ↦ rw failed (p.0, λ ok. ground (arith, ok))
              | inl (e, named, id) ↦ rw e (
                p.0,
                λ ok. record {
                  tracked = record {
                    mcp = tracked.mcp ∙ ap (λ (dp : DpobjType). is_set (text_of dp.name)) (sym p.1);
                    aiop = sym (ap is_set named);
                    id = λ found. id;
                  };
                  mcp_name = ap (λ (dp : DpobjType). text_of dp.name) p.1 ∙ sym (first_of-none _);
                  aiop_name =
                      named
                      ∙ sym (
                          ap (λ n. first_of n (name_if dpaiop dir)) unnamed
                          ∙ name_if_wanted dpaiop dir link (ground (arith, wanted)));
                },
              )
            ]))
        (λ unwanted. (
          refl,
          λ ok. record {
            tracked = tracked;
            mcp_name = sym (first_of-none _);
            aiop_name = first_of-name_if dpaiop dir _ w.aiop_avail tracked.aiop unwanted;
          },
        ))

  -- The body of the loop at a link, before a rest of the loop that finds `mcp` and `aiop`.
  link_lem :
      (dir : Dirent) (mcp aiop : Option Text) (go_on : Search → Act S Search) (w : Search) (s : S)
      → dir.is_link ≡ true
      → (begins dpmcp dir.d_name ≡ true → IsNumbered dir.d_name)
      → (begins dpaiop dir.d_name ≡ true → IsNumbered dir.d_name)
      → w.ok ≡ true
      → IsTracked w
      → ((v : Search) (u : S) → v.ok ≡ true → IsTracked v → Returns (Finds mcp aiop v) (go_on v u))
      → Returns (Finds (first_of (name_if dpmcp dir) mcp) (first_of (name_if dpaiop dir) aiop) w) (
          and_then (try_mcp os kernel dirs polls unset dir t w s) (λ w1.
            if not w1.ok then pure w1 else do
              w2 ← try_aiop os kernel dirs polls unset dir t w1
              if not w2.ok then pure w2 else go_on w2))
  link_lem dir mcp aiop go_on w s link mcp_numbered aiop_numbered fine tracked next =
      Returns-bind (Finds (name_if dpmcp dir) none w) Goal _ _
        (try_mcp_lem dir w s link mcp_numbered fine tracked)
        (λ w1 s1 f1.
          Returns-if Goal (not w1.ok) _ _ s1 (λ failed. (f1.0, λ ok. ground (arith, failed, ok)))
            (λ passed1.
              let ok1 : w1.ok ≡ true = ground (arith, passed1) in
              Returns-bind (Finds none (name_if dpaiop dir) w1) Goal _ _
                (try_aiop_lem dir w1 s1 link aiop_numbered ok1 (f1.1 ok1).tracked)
                (λ w2 s2 f2.
                  Returns-if Goal (not w2.ok) _ _ s2
                    (λ failed. (f2.0 ∙ f1.0, λ ok. ground (arith, failed, ok)))
                    (λ passed2.
                      let ok2 : w2.ok ≡ true = ground (arith, passed2) in
                      Returns-mono (Finds mcp aiop w2) Goal _
                        (λ w3 s3 f3. (
                          f3.0 ∙ f2.0 ∙ f1.0,
                          λ ok3.
                              IsFound-trans _ _ _ _ w w1 w3 (f1.1 ok1)
                                (IsFound-trans _ _ _ _ w1 w2 w3 (f2.1 ok2) (f3.1 ok3)),
                        ))
                        (next w2 s2 ok2 (f2.1 ok2).tracked)))))
    where
      Goal : Search → S → Type 0
      Goal = Finds (first_of (name_if dpmcp dir) mcp) (first_of (name_if dpaiop dir) aiop) w

  pub search_devices-Finds :
      (entries : List Dirent) (w : Search) (s : S)
      → AllNumbered entries
      → w.ok ≡ true
      → IsTracked w
      → Returns
          (Finds (first_named dpmcp entries) (first_named dpaiop entries) w)
          (search_devices os kernel dirs polls unset entries t w s)
  unfolding search_devices
  search_devices-Finds [] w s numbered fine tracked = (refl, λ ok. IsFound-same w tracked)
  search_devices-Finds (dir ∷ rest) w s numbered fine tracked =
      let ih = search_devices-Finds rest in
      Returns-if (Finds (first_named dpmcp (dir ∷ rest)) (first_named dpaiop (dir ∷ rest)) w)
        (not dir.is_link) _ _ s
        (λ other.
          rw (not_link dir other dpmcp, not_link dir other dpaiop) (ih w s numbered.2 fine tracked))
        (λ is_link.
          link_lem dir _ _ _ w s (ground (arith, is_link)) numbered.0 numbered.1 fine tracked
            (λ v u ok tracked'. ih v u numbered.2 ok tracked'))
