-- ===== src/Sweep/Fair.antt =====
-- rust/src/sweep.rs, `attempt_subsidized`: an early return never reports a broadcast.
use zinqq_kmp.Common.{
  ℕ, String, ◌≢◌, Bool, true, false, length, Option, none, some, List, [], is_some, Result, ok, err,
  refuse, ◌>>=◌, in_branches, ◌==◌, leb, if◌then◌else◌,
}
use zinqq_kmp.Vss.State.{Bytes}
use zinqq_kmp.Sweep.Subsidy.{SelectionOutcome}
use zinqq_kmp.Sweep.State.{Psbt, Effect, log, SweepEngine, Env}
use zinqq_kmp.Sweep.Collect.{BatchMember}
use zinqq_kmp.Sweep.Subsidized.{plan_over, plan_subsidy, change_script, sign_subsidized}
use zinqq_kmp.Sweep.SubsidyPlan.{SubsidizedOutcome, SubsidyPlan, accept_selection, or_failed}

-- The error, if it is one, is no broadcast.
pub record Fair {A : Type 0} (r : Result SubsidizedOutcome A) : Type 0 where
  pub no_broadcast :
      (txid : String) (subsidy : ℕ) → r ≢ err (SubsidizedOutcome.broadcast txid subsidy)

ok-Fair : {A : Type 0} (a : A) → Fair (ok a)
ok-Fair a = record { no_broadcast = λ txid subsidy is. cc }

failed-Fair : {A : Type 0} (reason : String) → Fair {A = A} (err (SubsidizedOutcome.failed reason))
failed-Fair reason = record { no_broadcast = λ txid subsidy is. cc }

pub bind-Fair :
    {A B : Type 0} (m : Result SubsidizedOutcome A) (f : A → Result SubsidizedOutcome B)
    → Fair m
    → ((a : A) → Fair (f a))
    → Fair (m >>= f)
bind-Fair (ok a) f h k = k a
bind-Fair (err e) f h k = record {
  no_broadcast = λ txid subsidy is. h.no_broadcast txid subsidy (cc);
}

or_failed-Fair : {A : Type 0} (reason : String) (o : Option A) → Fair (or_failed reason o)
or_failed-Fair reason none = failed-Fair reason
or_failed-Fair reason (some a) = ok-Fair a

refuse_failed :
    (refused : Bool) (reason : String) → Fair (refuse refused (SubsidizedOutcome.failed reason))
refuse_failed true reason = failed-Fair reason
refuse_failed false reason = ok-Fair tt

refuse_uneconomical :
    (refused : Bool) (needed pending : ℕ)
    → Fair (refuse refused (SubsidizedOutcome.not_economical needed pending))
refuse_uneconomical true needed pending = record { no_broadcast = λ txid subsidy is. cc }
refuse_uneconomical false needed pending = ok-Fair tt

branch-Fair :
    {A : Type 0} (b : Bool) (x y : Result SubsidizedOutcome A)
    → Fair x
    → Fair y
    → Fair (if b then x else y)
branch-Fair true x y h k = h
branch-Fair false x y h k = k

accept_selection-Fair :
    {Signatures : Type 0} (psbt : Psbt Signatures) (weight fee out inputs : ℕ)
    (s : SelectionOutcome Bytes)
    → Fair (accept_selection psbt weight fee out inputs s)
accept_selection-Fair psbt weight fee out inputs (SelectionOutcome.shortfall n a) = record {
  no_broadcast = λ txid subsidy is. cc;
}
accept_selection-Fair psbt weight fee out inputs (SelectionOutcome.selection s) =
    branch-Fair (leb out s.subsidy_sats)
      (err (SubsidizedOutcome.not_economical s.subsidy_sats inputs))
      (ok (record {
        psbt = psbt;
        ldk_weight_wu = weight;
        ldk_fee_sats = fee;
        ldk_output_sats = out;
        selected = s;
      }))
      (record { no_broadcast = λ txid subsidy is. cc }) (ok-Fair _)

ruleset fair = (
  bind-Fair, or_failed-Fair, refuse_failed, refuse_uneconomical, accept_selection-Fair, branch-Fair,
  ok-Fair, failed-Fair,
)

module _ {V Blob Rest Signatures : Type 0} (env : Env Rest Signatures) where
  plan_over-Fair :
      (created : Psbt Signatures × ℕ) (rate : ℕ) (s : SweepEngine V Blob)
      → Fair (plan_over env created rate s)
  unfolding plan_over
  plan_over-Fair (psbt, weight) rate s = search fair

  pub plan_subsidy-Fair :
      (batch : List (BatchMember Rest)) (destination : Bytes) (rate : ℕ) (s : SweepEngine V Blob)
      → Fair (plan_subsidy env batch destination rate s)
  unfolding plan_subsidy
  plan_subsidy-Fair batch destination rate s = search (fair, plan_over-Fair)

  pub change_script-Fair :
      (plan : SubsidyPlan Signatures) (s : SweepEngine V Blob) → Fair (change_script env plan s).0
  unfolding change_script
  change_script-Fair plan s =
      in_branches (λ (r : Result SubsidizedOutcome Bytes × SweepEngine V Blob). Fair r.0)
        (is_some plan.selected.change_sats)
        (
          or_failed "change-script" (env.get_change_destination_script s.clock) >>= λ script.
              if length script == 22
              then ok script
              else err (SubsidizedOutcome.failed "unexpected-change-script"),
          log Effect.revealed_change s,
        )
        (ok [], s) (λ with_change. search fair) (λ changeless. ok-Fair [])

  pub sign_subsidized-Fair :
      (batch : List (BatchMember Rest)) (plan : SubsidyPlan Signatures) (script : Bytes)
      (s : SweepEngine V Blob)
      → Fair (sign_subsidized env batch plan script s)
  unfolding sign_subsidized
  sign_subsidized-Fair batch plan script s = search fair depth 12
