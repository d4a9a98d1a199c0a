-- ===== src/Tests/Shape.antt =====
-- The figure of the earth of a spheroid.
use gribbi.Base.{◌≡◌, refl, false, ◌/◌, some, [], nat_eq, string_eq, option_eq, pair_eq, ok, ◌>>=◌}
use gribbi.Base.Int.{ℤ, pos, pos_part, int_eq}
use gribbi.Base.Dict.{keys}
use gribbi.Value.{real}
use gribbi.Load.Ellipsoid.{spheroid, earth}
use gribbi.Save.Cube.{Encoding}
use gribbi.Save.Shape.{Figure, shape_of_the_earth}
use gribbi.Save.Shape.RoundTrip.{section_of_keys, earth-shape_of_the_earth}
use gribbi.Tests.{whole, exact}

-- The axes that are saved of Airy's ellipsoid, 6377563.396 and 6356256.909 metres, in millimetres.
abbrev airy : Figure ℤ
airy = record {
  is_spherical = false;
  semi_major_axis = pos 6377563396;
  semi_minor_axis = pos 6356256909;
}

-- The whole metres of a number of millimetres.
abbrev metres : Encoding ℤ
metres = record exact { truncate = λ a. ok (pos (pos_part a / 1000)) }

earth-shape_of_the_earth_example :
    (do keys ← shape_of_the_earth metres (some airy) []; earth whole (section_of_keys keys))
    ≡ ok (spheroid (real (pos 6377563)) (real (pos 6356256)))
earth-shape_of_the_earth_example =
    earth-shape_of_the_earth whole metres airy (pos 6377563) (pos 6356256) refl refl (λ a. refl)
