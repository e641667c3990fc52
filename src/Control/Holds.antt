-- ===== src/Control/Holds.antt =====
-- What holds of an owner that is found, and Boolean steps of the comparison (`controlOwner` in control.go).
use wireguard_mesh.Prelude.{
  ◌≡◌, refl, Bool, true, false, not, ◌&&◌, ◌||◌, Option, none, some, arith, if◌then◌else◌, subst,
}
use wireguard_mesh.Control.Device.{Owner}

abbrev pub HoldsOf : Option Owner → (Owner → Type 0) → Type 0
HoldsOf none P = Unit
HoldsOf (some o) P = P o

-- what holds of an owner that is found
pub record Holds (x : Option Owner) (P : Owner → Type 0) : Type 0 where
  pub holds : HoldsOf x P

pub Holds-if :
    (b : Bool) {x y : Option Owner} {P : Owner → Type 0}
    → (b ≡ true → Holds x P)
    → (b ≡ false → Holds y P)
    → Holds (if b then x else y) P
Holds-if true h k = h refl
Holds-if false h k = k refl

pub Holds-bind :
    {x : Option Owner} {f : Owner → Option Owner} {P R : Owner → Type 0}
    → Holds x P
    → ((o : Owner) → P o → Holds (f o) R)
    → Holds (elim x [ none ↦ none | some o ↦ f o ]) R
Holds-bind {x = none} h k = record { holds = tt }
Holds-bind {x = some o} h k = k o h.holds

pub Holds-map :
    (x : Option Owner) {P R : Owner → Type 0} → Holds x P → ((o : Owner) → P o → R o) → Holds x R
Holds-map none h k = record { holds = tt }
Holds-map (some o) h k = record { holds = k o h.holds }

pub Holds-found : {o : Owner} {P : Owner → Type 0} → P o → Holds (some o) P
Holds-found h = record { holds = h }

pub Holds-some : {x : Option Owner} {P : Owner → Type 0} (o : Owner) → Holds x P → x ≡ some o → P o
Holds-some {x} {P} o h e = subst (λ y. HoldsOf y P) e h.holds

-- Boolean steps of the two cases of a claim.
pub beaten_by : (c l : Bool) → l ≡ true → ((not c || l) && true) ≡ true
beaten_by c l h = ground arith

pub had_by : (c e s : Bool) → c ≡ true → e ≡ true → s ≡ true → (c && e && s || false) ≡ true
had_by c e s a b d = ground arith

pub or_map : (c l m : Bool) → (l ≡ true → m ≡ true) → (not c || l) ≡ true → (not c || m) ≡ true
or_map true l m f h = f h
or_map false l m f h = refl

pub stays :
    (c t l : Bool) → (c && t) ≡ false → (t ≡ false → l ≡ true) → ((not c || l) && true) ≡ true
stays true t l h f = ground (arith, f h)
stays false t l h f = refl

pub and_left : (a b : Bool) → (a && b) ≡ true → a ≡ true
and_left a b h = ground arith

pub and_right : (a b : Bool) → (a && b) ≡ true → b ≡ true
and_right a b h = ground arith
