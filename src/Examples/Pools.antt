-- ===== src/Examples/Pools.antt =====
-- A range of four addresses, 10.0.0.2 to 10.0.0.5, as a pool.
use plugins.Prelude.{◌≡◌, refl, [], ◌∷◌, some, arith}
use plugins.Net.{Ip}
use plugins.Net.Facts.{IsBytes}
use plugins.HostLocal.Types.{Range, RangeSet}
use plugins.HostLocal.Iter.Pool.{IsSound, IsPool}
use plugins.HostLocal.Iter.Order.{Iteration, iter_from-Iteration}
use plugins.Examples.Addresses.{ten_two, ten_five, ten_two-IsPlain, ten_five-IsPlain, ten_in_order}

abbrev pub small_range : Range
small_range = record {
  range_start = some ten_two;
  range_end = some ten_five;
  subnet = record { ip = 10 ∷ 0 ∷ 0 ∷ 0 ∷ []; mask = 255 ∷ 255 ∷ 255 ∷ 0 ∷ [] };
  gateway = some (10 ∷ 0 ∷ 0 ∷ 1 ∷ []);
}

abbrev pub small_pool : RangeSet
small_pool = small_range ∷ []

small_range-IsSound : IsSound small_range
small_range-IsSound = record {
  start = ten_two;
  end = ten_five;
  has_start = refl;
  has_end = refl;
  plain_start = ten_two-IsPlain;
  plain_end = ten_five-IsPlain;
  one_length = refl;
  subnet_length = refl;
  in_order = omega (arith, ten_in_order);
}

pub small_pool-IsPool : IsPool small_pool
small_pool-IsPool = record {
  some_range = omega arith;
  sound = (small_range-IsSound, tt);
  apart = (tt, tt);
}

ten_two_only : (a : Ip) → some ten_two ≡ some a → IsBytes a
ten_two_only a e = ground (arith, ten_two-IsPlain.bytes)

iter_from-Iteration_example : Iteration small_pool (some ten_two)
iter_from-Iteration_example =
    iter_from-Iteration small_pool (some ten_two) small_pool-IsPool (λ a e. ten_two_only a e)
