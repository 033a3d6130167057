-- ===== src/Hardware/Status.antt =====
-- `_validate_status_pair` of src/ptlab/hardware.py.
use pinetime_dev_tools.Prelude.{◌≤◌, arith, leb, ◌==◌, ◌≡◌}
use pinetime_dev_tools.Prelude.Result.{Result, ok, require, ◌>>◌}
use pinetime_dev_tools.Wire.{CompanionStatus}
use pinetime_dev_tools.Hardware.{
  HardwareError, status_changed, bonded_count_regressed, eviction_count_regressed,
}

unfoldable pub validate_status_pair :
    CompanionStatus → CompanionStatus → Result HardwareError (Unit {0})
validate_status_pair public verified = do
  require (public.protocol == verified.protocol) status_changed
  require (public.capacity == verified.capacity) status_changed
  require (public.eviction_policy == verified.eviction_policy) status_changed
  require (public.reset_epoch == verified.reset_epoch) status_changed
  require (leb public.bonded_count verified.bonded_count) bonded_count_regressed
  require (leb public.eviction_count verified.eviction_count) eviction_count_regressed

-- Two readings of one watch, the second one behind authentication.
pub record Consistent (public verified : CompanionStatus) : Type 0 where
  pub same_protocol : public.protocol ≡ verified.protocol
  pub same_capacity : public.capacity ≡ verified.capacity
  pub same_policy : public.eviction_policy ≡ verified.eviction_policy
  pub same_epoch : public.reset_epoch ≡ verified.reset_epoch
  pub bonded_grows : public.bonded_count ≤ verified.bonded_count
  pub evictions_grow : public.eviction_count ≤ verified.eviction_count

pub validate-Consistent :
    (public verified : CompanionStatus)
    → validate_status_pair public verified ≡ ok tt
    → Consistent public verified
unfolding validate_status_pair
validate-Consistent public verified h = record {
  same_protocol = ground arith;
  same_capacity = ground arith;
  same_policy = ground arith;
  same_epoch = ground arith;
  bonded_grows = ground arith;
  evictions_grow = ground arith;
}
