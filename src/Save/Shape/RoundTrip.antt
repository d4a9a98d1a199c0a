-- ===== src/Save/Shape/RoundTrip.antt =====
-- The figure of the earth that is saved is read back.
use gribbi.Base.{
  ◌≡◌, inl, inr, true, none, some, [], arith, if◌then◌else◌, Bool-cases, nat_eq, string_eq,
  option_eq, pair_eq, key_error, ok, err, ◌>>=◌,
}
use gribbi.Base.Int.{ℤ, pos, int_eq}
use gribbi.Base.Dict.{keys, lookup, insert}
use gribbi.Value.{real}
use gribbi.Value.{Reader}
use gribbi.Externals.{Externals, as_float}
use gribbi.Load.Scaling.{unscale, unscale_scalar, unscale_one}
use gribbi.Load.Ellipsoid.{sphere, spheroid, ellipsoid, ellipsoid_geometry, oblate, earth}
use gribbi.Save.Cube.{Encoding}
use gribbi.Save.Shape.{Figure, Keys, shape_of_the_earth, unset_lengths}

-- The section of those keys.
abbrev pub section_of_keys : {F : Type 0} → Keys F → Reader F
section_of_keys keys = record {
  get = λ key. elim (lookup key keys) [ none ↦ err key_error | some v ↦ ok v ];
  has_key = λ key. true;
  get_computed_key = λ key. err key_error;
}

module _ {F : Type 0} (x : Externals F) (e : Encoding F) where
  -- Where the axes of a figure are cut to the whole metres `major` and `minor`, and a number divided
  -- by 10.0 ** 0 is that number, a figure that is saved to a new message is read back as a sphere
  -- of the radius `major`, or a spheroid of the axes `major` and `minor`.
  pub earth-shape_of_the_earth :
      (figure : Figure F) (major minor : ℤ)
      → e.truncate figure.semi_major_axis ≡ ok major
      → e.truncate figure.semi_minor_axis ≡ ok minor
      → ((a : F) → x.div a (x.pow10 (x.of_int (pos 0))) ≡ a)
      → (do keys ← shape_of_the_earth e (some figure) []; earth x (section_of_keys keys))
        ≡ ok (
            if figure.is_spherical
            then sphere (real (x.of_int major))
            else spheroid (real (x.of_int major)) (real (x.of_int minor)))
  unfolding shape_of_the_earth unset_lengths earth ellipsoid ellipsoid_geometry oblate lookup insert
      unscale unscale_scalar unscale_one as_float
  earth-shape_of_the_earth figure major minor p q exact = elim (Bool-cases figure.is_spherical) [
    | inl round ↦ rw (round, p) (ground (arith, exact (x.of_int (pos 0)), exact (x.of_int major)))
    | inr oval ↦ rw (oval, p, q) (ground (arith, exact (x.of_int major), exact (x.of_int minor)))
  ]
