-- ===== src/Scale/Target.antt =====
-- How many instances a component should have, calcScaleTarget and toComponentConcurrency of
-- pkg/maelstrom/scale.go. Floating-point arithmetic is a parameter: the bounds hold whatever it does.
use maelstrom.Prelude.{Bool, ◌&&◌, List, [], ◌∷◌, length, if◌then◌else◌, arith}
use maelstrom.Prelude.Int.{ℤ, pos, ◌*ℤ◌, ◌≤ℤ◌, ltb_ℤ, leb_ℤ}
use maelstrom.V1.{Component}

pub record FloatOps : Type 1 where
  pub Float : Type 0
  pub of_int : ℤ → Float
  pub add : Float → Float → Float
  pub mul : Float → Float → Float
  pub div : Float → Float → Float
  pub less : Float → Float → Bool
  pub less_eq : Float → Float → Bool
  pub ceil : Float → ℤ

pub idle_timeout : Component → ℤ
idle_timeout c =
    if leb_ℤ c.docker.idle_timeout_seconds (pos 0) then pos 300 else c.docker.idle_timeout_seconds

-- The minimum of toComponentConcurrency.
pub min_instances : Component → ℤ → ℤ
unfolding idle_timeout
min_instances c secs_since_last_req =
    if ltb_ℤ c.min_instances (pos 1) && leb_ℤ secs_since_last_req (idle_timeout c)
    then pos 1
    else c.min_instances

min_instances-awake :
    (c : Component) (secs : ℤ) → secs ≤ℤ idle_timeout c → pos 1 ≤ℤ min_instances c secs
unfolding min_instances
min_instances-awake c secs awake = ground (arith, awake)

min_instances-least : (c : Component) (secs : ℤ) → c.min_instances ≤ℤ min_instances c secs
unfolding min_instances
min_instances-least c secs = ground arith

le_through : (a b c : ℤ) → a ≤ℤ b → b ≤ℤ c → a ≤ℤ c
le_through a b c ab bc = omega (arith, ab, bc)

module _ (ops : FloatOps) where
  -- Of one component: the concurrency samples of each of its containers, the newest first.
  pub record ScaleTargetInput : Type 0 where
    pub infos : List (List (FloatOps.Float ops))
    pub max_concurrency_per_inst : ℤ
    pub min_inst : ℤ
    pub max_inst : ℤ
    pub scale_down_concur_pct : FloatOps.Float ops
    pub scale_up_concur_pct : FloatOps.Float ops

  highest : List (FloatOps.Float ops) → FloatOps.Float ops → FloatOps.Float ops
  highest [] max_val = max_val
  highest (v ∷ vals) max_val = highest vals (if FloatOps.less ops max_val v then v else max_val)

  total : List (FloatOps.Float ops) → FloatOps.Float ops → FloatOps.Float ops
  total [] sum = sum
  total (v ∷ vals) sum = total vals (FloatOps.add ops sum v)

  sum_max : List (List (FloatOps.Float ops)) → FloatOps.Float ops → FloatOps.Float ops
  unfolding highest
  sum_max [] sum = sum
  sum_max ([] ∷ infos) sum = sum_max infos sum
  sum_max ((v ∷ vals) ∷ infos) sum =
      sum_max infos (FloatOps.add ops sum (highest (v ∷ vals) (FloatOps.of_int ops (pos 0))))

  sum_avg : List (List (FloatOps.Float ops)) → FloatOps.Float ops → FloatOps.Float ops
  unfolding total
  sum_avg [] sum = sum
  sum_avg ([] ∷ infos) sum = sum_avg infos sum
  sum_avg ((v ∷ vals) ∷ infos) sum = sum_avg infos (
      FloatOps.add ops sum (
        FloatOps.div ops (total (v ∷ vals) (FloatOps.of_int ops (pos 0)))
          (FloatOps.of_int ops (pos (length (v ∷ vals))))))

  -- The target before the bounds.
  wanted : ScaleTargetInput → ℤ
  unfolding sum_max sum_avg
  wanted i =
      let n = pos (length i.infos) in
      let zero_val = FloatOps.of_int ops (pos 0) in
      let sum_max_concurrency = sum_max i.infos zero_val in
      let sum_avg_concurrency = sum_avg i.infos zero_val in
      let denom = FloatOps.of_int ops (n *ℤ i.max_concurrency_per_inst) in
      let scale_denom =
        FloatOps.mul ops (FloatOps.of_int ops i.max_concurrency_per_inst) i.scale_up_concur_pct in
      if ltb_ℤ (pos 0) n
      then if FloatOps.less ops i.scale_up_concur_pct (FloatOps.div ops sum_avg_concurrency denom)
        then FloatOps.ceil ops (FloatOps.div ops sum_avg_concurrency scale_denom)
        else if FloatOps.less ops (FloatOps.div ops sum_max_concurrency denom)
            i.scale_down_concur_pct
        then FloatOps.ceil ops (FloatOps.div ops sum_max_concurrency scale_denom)
        else n
      else n

  -- The last two tests of calcScaleTarget.
  bounded : ℤ → ℤ → ℤ → ℤ
  bounded min_inst max_inst target =
      let target_1 = if ltb_ℤ target min_inst then min_inst else target in
      if ltb_ℤ max_inst target_1 && ltb_ℤ (pos 0) max_inst && leb_ℤ min_inst max_inst
      then max_inst
      else target_1

  pub calc_scale_target : ScaleTargetInput → ℤ
  unfolding wanted bounded
  calc_scale_target i = bounded i.min_inst i.max_inst (wanted i)

  -- Whatever the samples and the arithmetic are: the target is at least the minimum, and at most the
  -- maximum if that is positive and not below the minimum.
  pub calc_scale_target_bounds :
      (i : ScaleTargetInput)
      → (i.min_inst ≤ℤ calc_scale_target i)
        × (pos 1 ≤ℤ i.max_inst → i.min_inst ≤ℤ i.max_inst → calc_scale_target i ≤ℤ i.max_inst)
  unfolding calc_scale_target bounded
  calc_scale_target_bounds i = (ground arith, λ positive ordered. ground (arith, positive, ordered))

  pub to_scale_target_input :
      Component
      → FloatOps.Float ops
      → FloatOps.Float ops
      → FloatOps.Float ops
      → FloatOps.Float ops
      → ℤ
      → List (List (FloatOps.Float ops))
      → ScaleTargetInput
  to_scale_target_input c down up default_down default_up min_inst infos =
      let zero_val = FloatOps.of_int ops (pos 0) in
      record {
        infos = infos;
        max_concurrency_per_inst =
            if leb_ℤ c.max_concurrency (pos 0) then pos 1 else c.max_concurrency;
        min_inst = min_inst;
        max_inst = c.max_instances;
        scale_down_concur_pct = if FloatOps.less_eq ops down zero_val then default_down else down;
        scale_up_concur_pct = if FloatOps.less_eq ops up zero_val then default_up else up;
      }

  -- Whatever the samples and the arithmetic are: a component whose last request is not older than
  -- its idle timeout keeps at least one instance, and one that has a minimum keeps that.
  pub calc_scale_target_awake :
      (c : Component) (down up default_down default_up : FloatOps.Float ops) (secs : ℤ)
      (infos : List (List (FloatOps.Float ops)))
      → let target =
          calc_scale_target (
            to_scale_target_input c down up default_down default_up (min_instances c secs) infos) in
        (secs ≤ℤ idle_timeout c → pos 1 ≤ℤ target) × (c.min_instances ≤ℤ target)
  unfolding to_scale_target_input min_instances
  calc_scale_target_awake c down up default_down default_up secs infos =
      let input =
        to_scale_target_input c down up default_down default_up (min_instances c secs) infos in
      let (low, high) = calc_scale_target_bounds input in
      (
        λ awake.
            le_through (pos 1) (min_instances c secs) (calc_scale_target input)
              (min_instances-awake c secs awake) low,
        le_through c.min_instances (min_instances c secs) (calc_scale_target input)
            (min_instances-least c secs) low,
      )
