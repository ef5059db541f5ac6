-- ===== src/SkipList/Order.antt =====
-- The order of the nodes of internal/store/skiplist.go: by score, then by member.
use redis_in_go.Prelude.{◌≡◌, true, false, arith}
use redis_in_go.Text.{str_eq, str_less_irrefl, str_less_trans, str_less_total, str_eq_iff}
use redis_in_go.SkipList.{Node, before}
use redis_in_go.SkipList.Float.{Float64, is_nan, float_less, float_equal}

pub float_less_trans :
    (a b c : Float64) → float_less a b ≡ true → float_less b c ≡ true → float_less a c ≡ true
unfolding float_less is_nan
float_less_trans a b c h k = ground (arith, h, k)

before_irrefl : (a : Node) → before a a ≡ false
unfolding before float_less float_equal is_nan
before_irrefl a = ground (arith, str_less_irrefl a.member)

pub before_trans : (a b c : Node) → before a b ≡ true → before b c ≡ true → before a c ≡ true
unfolding before float_less float_equal is_nan
before_trans a b c h k = ground (arith, h, k, str_less_trans a.member b.member c.member)

pub before_asym : (a b : Node) → before a b ≡ true → before b a ≡ false
before_asym a b h = ground (arith, h, before_irrefl a, before_trans a b a)

-- Without NaN, two nodes with different members are in order one way or the other.
pub before_total :
    (a b : Node)
    → is_nan a.score ≡ false
    → is_nan b.score ≡ false
    → str_eq a.member b.member ≡ false
    → before a b ≡ false
    → before b a ≡ true
unfolding before float_less float_equal is_nan
before_total a b ha hb hm h =
    ground (arith, ha, hb, hm, h, str_less_total a.member b.member, str_eq_iff a.member b.member)
