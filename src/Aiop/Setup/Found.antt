-- ===== src/Aiop/Setup/Found.antt =====
-- What the loop of `setup_aiopt_device` looks for: the first device of each of the two kinds.
use gpp_aioptool.Base.{
  ◌≡◌, refl, arith, sym, ap, ◌∙◌, ◌&&◌, if◌then◌else◌, not, Bool, true, false, Option, none, some,
  List, [], ◌∷◌, Text,
}
use gpp_aioptool.Dpaiop.Types.{IsInt}
use gpp_aioptool.Aiop.Setup.{Dirent, second_token, begins, dpmcp, dpaiop}
use gpp_aioptool.Aiop.Setup.Filled.{text_of}
use gpp_aioptool.Aiop.Setup.Devices.{Search}

abbrev pub first_of : {A : Type 0} → Option A → Option A → Option A
first_of none y = y
first_of (some x) y = some x

abbrev pub is_set : {A : Type 0} → Option A → Bool
is_set none = false
is_set (some x) = true

-- The first link whose name begins with the prefix.
abbrev pub name_if : (prefix : Text) → Dirent → Option Text
name_if prefix dir = if dir.is_link && begins prefix dir.d_name then some dir.d_name else none

abbrev pub first_named : (prefix : Text) → List Dirent → Option Text
first_named prefix [] = none
first_named prefix (dir ∷ rest) = first_of (name_if prefix dir) (first_named prefix rest)

-- The devices have names of two parts.
abbrev pub IsNumbered : Text → Type 0
IsNumbered name = (number : Text) × (second_token name ≡ some number)

abbrev pub AllNumbered : List Dirent → Type 0
AllNumbered [] = Unit {0}
AllNumbered (dir ∷ rest) =
    (begins dpmcp dir.d_name ≡ true → IsNumbered dir.d_name)
    × (begins dpaiop dir.d_name ≡ true → IsNumbered dir.d_name)
    × AllNumbered rest

-- A device is marked as found when it has its name; the AIOP device has a number then.
pub record IsTracked (w : Search) : Type 0 where
  pub mcp : w.mcp_avail ≡ is_set (text_of w.obj.mcp.name)
  pub aiop : w.aiop_avail ≡ is_set (text_of w.obj.aiop.name)
  pub id : w.aiop_avail ≡ true → IsInt w.obj.aiop.id

-- The names after a search with the results `mcp` and `aiop`, if no device failed.
pub record IsFound (mcp aiop : Option Text) (w w' : Search) : Type 0 where
  pub tracked : IsTracked w'
  pub mcp_name : text_of w'.obj.mcp.name ≡ first_of (text_of w.obj.mcp.name) mcp
  pub aiop_name : text_of w'.obj.aiop.name ≡ first_of (text_of w.obj.aiop.name) aiop

abbrev pub Finds : {S : Type 0} → (mcp aiop : Option Text) → Search → Search → S → Type 0
Finds mcp aiop w w' s =
    (w'.obj.vfio_handle ≡ w.obj.vfio_handle) × (w'.ok ≡ true → IsFound mcp aiop w w')

pub is_set-none : {A : Type 0} (x : Option A) → is_set x ≡ false → x ≡ none
is_set-none none e = refl
is_set-none (some x) e = ground (arith, e)

pub first_of-none : {A : Type 0} (x : Option A) → first_of x none ≡ x
first_of-none none = refl
first_of-none (some x) = refl

first_of_assoc :
    {A : Type 0} (x y z : Option A) → first_of (first_of x y) z ≡ first_of x (first_of y z)
first_of_assoc none y z = refl
first_of_assoc (some x) y z = refl

first_of-set : {A : Type 0} (x y : Option A) → is_set x ≡ true → first_of x y ≡ x
first_of-set none y e = ground (arith, e)
first_of-set (some x) y e = refl

pub name_if_wanted :
    (prefix : Text) (dir : Dirent)
    → dir.is_link ≡ true
    → begins prefix dir.d_name ≡ true
    → name_if prefix dir ≡ some dir.d_name
name_if_wanted prefix dir link wanted = simp (link, wanted) refl

-- A name that is already set, or a name that does not fit, makes no change.
pub first_of-name_if :
    (prefix : Text) (dir : Dirent) (cur : Option Text) (avail : Bool)
    → avail ≡ is_set cur
    → (begins prefix dir.d_name && not avail) ≡ false
    → cur ≡ first_of cur (name_if prefix dir)
first_of-name_if prefix dir none avail set unwanted = ground (arith, set, unwanted)
first_of-name_if prefix dir (some x) avail set unwanted = refl

pub not_link : (dir : Dirent) → not dir.is_link ≡ true → (prefix : Text) → name_if prefix dir ≡ none
not_link dir other prefix = ground (arith, other)

pub IsFound-same : (w : Search) → IsTracked w → IsFound none none w w
IsFound-same w tracked = record {
  tracked = tracked;
  mcp_name = sym (first_of-none _);
  aiop_name = sym (first_of-none _);
}

pub IsFound-trans :
    (mcp1 aiop1 mcp2 aiop2 : Option Text) (w w1 w2 : Search)
    → IsFound mcp1 aiop1 w w1
    → IsFound mcp2 aiop2 w1 w2
    → IsFound (first_of mcp1 mcp2) (first_of aiop1 aiop2) w w2
IsFound-trans mcp1 aiop1 mcp2 aiop2 w w1 w2 f g = record {
  tracked = g.tracked;
  mcp_name = g.mcp_name ∙ ap (λ n. first_of n mcp2) f.mcp_name ∙ first_of_assoc _ mcp1 mcp2;
  aiop_name = g.aiop_name ∙ ap (λ n. first_of n aiop2) f.aiop_name ∙ first_of_assoc _ aiop1 aiop2;
}
