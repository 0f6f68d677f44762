-- ===== src/CloseRecords/Merge/Newer.antt =====
-- rust/src/close_records.rs, `merge_close_records`: the facts that newer evidence may replace.
use zinqq_kmp.Common.{◌≡◌, refl, arith}
use zinqq_kmp.CloseRecords.Record.{CloseType, Initiator, CloseRecord}
use zinqq_kmp.CloseRecords.Merge.{merge_close_type, merge_initiator, merge_close_records}
use zinqq_kmp.CloseRecords.Merge.Txs.{first_known}

-- In `m` stands what `newer` knows of the kind, the initiator, the amount and the claimable height, and
-- where it knows nothing what `base` says.
pub record Renews {V : Type 0} (base newer m : CloseRecord V) : Type 0 where
  pub same_type : newer.close_type ≡ CloseType.unknown → m.close_type ≡ base.close_type
  pub new_type : ¬ (newer.close_type ≡ CloseType.unknown) → m.close_type ≡ newer.close_type
  pub same_initiator : newer.initiator ≡ Initiator.unknown → m.initiator ≡ base.initiator
  pub new_initiator : ¬ (newer.initiator ≡ Initiator.unknown) → m.initiator ≡ newer.initiator
  pub expected_amount_sats :
      m.expected_amount_sats ≡ first_known newer.expected_amount_sats base.expected_amount_sats
  pub claimable_at_height :
      m.claimable_at_height ≡ first_known newer.claimable_at_height base.claimable_at_height

new_type :
    (base newer : CloseType) → ¬ (newer ≡ CloseType.unknown) → merge_close_type base newer ≡ newer
unfolding merge_close_type
new_type base CloseType.coop known = refl
new_type base CloseType.force known = refl
new_type base CloseType.unknown known = absurd (known refl)

new_initiator :
    (base newer : Initiator) → ¬ (newer ≡ Initiator.unknown) → merge_initiator base newer ≡ newer
unfolding merge_initiator
new_initiator base Initiator.local known = refl
new_initiator base Initiator.remote known = refl
new_initiator base Initiator.unknown known = absurd (known refl)

pub merge-Renews :
    {V : Type 0} (base newer : CloseRecord V) → Renews base newer (merge_close_records base newer)
unfolding merge_close_records merge_close_type merge_initiator
merge-Renews base newer = record {
  same_type = λ unknown. rw unknown refl;
  new_type = new_type base.close_type newer.close_type;
  same_initiator = λ unknown. rw unknown refl;
  new_initiator = new_initiator base.initiator newer.initiator;
  expected_amount_sats = ground arith;
  claimable_at_height = ground arith;
}
