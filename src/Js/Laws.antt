-- ===== src/Js/Laws.antt =====
-- Reading back what was written to an object.
use sync_bridge_platform.Base.{
  String, ◌≡◌, refl, ◌≢◌, some, arith, ◌==◌, eq_iff, eq_refl, if◌then◌else◌,
}
use sync_bridge_platform.Js.{Json, Fields, end, field, given, own, read, write}

module _ {N : Type 0} where
  own-write :
      (fs : Fields N) (k j : String) (v : Json N)
      → own (write fs k v) j ≡ (if k == j then some v else own fs j)
  unfolding own write
  own-write end k j v = refl
  own-write (field i w fs) k j v =
      ground (arith, eq_iff k j, eq_iff i k, eq_iff i j, own-write fs k j v)

  pub own-write_self : (fs : Fields N) (k : String) (v : Json N) → own (write fs k v) k ≡ some v
  own-write_self fs k v = simp (own-write, eq_refl)

  pub read-write_self : (fs : Fields N) (k : String) (v : Json N) → read (write fs k v) k ≡ given v
  unfolding read
  read-write_self fs k v = rw (own-write_self fs k v)

  pub own-write_ne :
      (fs : Fields N) (k j : String) (v : Json N) → k ≢ j → own (write fs k v) j ≡ own fs j
  own-write_ne fs k j v ne = rw (own-write fs k j v) (ground (arith, eq_iff k j))

  pub read-write_ne :
      (fs : Fields N) (k j : String) (v : Json N) → k ≢ j → read (write fs k v) j ≡ read fs j
  unfolding read
  read-write_ne fs k j v ne = rw (own-write_ne fs k j v ne)
