-- ===== src/IntegralMk/Points.antt =====
-- task4/integral-mk/src/mk_main.c: the points of a thread and the estimate of the receiver. Double
-- precision numbers, with printf's `%.5f`, are a parameter.
use sem.Common.{ℕ, ◌-◌, Bool, Bytes, leb, if◌then◌else◌}
use sem.IntegralMk.Main.{points_num}

-- Integers, which a difference of the clock's fields is.
pub data ℤ : Type 0 where
  pos negsuc : ℕ → ℤ

infixl 20 ◌-ℤ◌
abbrev pub ◌-ℤ◌ : ℕ → ℕ → ℤ
a -ℤ b = if leb b a then pos (a - b) else negsuc (b - a - 1)

-- What the program uses of doubles.
pub record Floating (D : Type 0) : Type 0 where
  pub of_int : ℤ → D
  pub add : D → D → D
  pub sub : D → D → D
  pub mul : D → D → D
  pub div : D → D → D
  pub sqrt : D → D
  pub less : D → D → Bool
  pub print5 : D → Bytes

pub record Point (D : Type 0) : Type 0 where
  pub x : D
  pub y : D

pub record Interval (D : Type 0) : Type 0 where
  pub a : D
  pub b : D

-- What `double_cmp` returns: 1, -1 or 0.
pub data Comparison : Type 0 where
  one minus_one nought : Comparison

module _ {D : Type 0} (fl : Floating D) where
  abbrev pub double_cmp : D → D → Comparison
  double_cmp a b = if fl.less b a then one else if fl.less a b then minus_one else nought

  abbrev pub function : D → D
  function x = fl.sqrt x

  abbrev pub range : Interval D → D
  range interval = fl.sub interval.b interval.a

  -- The point of a round of `GeneratePoints`, from the two numbers that rand_r gives.
  abbrev pub new_point : ℕ → Interval D → ℕ × ℕ → Point D
  new_point rand_max interval draws = record {
    x =
        fl.add
          (fl.mul (fl.div (fl.of_int (pos draws.0)) (fl.of_int (pos rand_max))) (range interval))
          interval.a;
    y = fl.mul (fl.div (fl.of_int (pos draws.1)) (fl.of_int (pos rand_max))) interval.b;
  }

  -- The test of the round.
  abbrev pub is_below : Point D → Bool
  is_below p = fl.less (fl.sub p.y (function p.x)) (fl.of_int (pos 0))

  -- The result of `Receive`, from the count that it reads.
  abbrev pub receive : ℕ → Interval D → D
  receive counted interval =
      fl.mul
        (fl.mul (fl.div (fl.of_int (pos counted)) (fl.of_int (pos points_num))) (range interval))
        (range interval)
