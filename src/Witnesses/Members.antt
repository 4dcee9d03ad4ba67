-- ===== src/Witnesses/Members.antt =====
-- Runs of the approval of users.
use be_lumbung_mesari.Prelude.{ℕ, Bool, false, ◌+ℤ◌, ◌-ℤ◌, ◌≡◌, ◌≢◌, refl, true, some, find}
use be_lumbung_mesari.Exec.{ok}
use be_lumbung_mesari.Cashbook.{
  create_income_transaction, create_transaction, cashbook_insert_balance, write_balance,
}
use be_lumbung_mesari.Db.{Db, User, UserStatus, PrincipalSavings, SavingsStatus}
use be_lumbung_mesari.Incomes.{book_income, create_categorised, create_principal_savings_income}
use be_lumbung_mesari.Savings.Records.{update_principal_savings}
use be_lumbung_mesari.Savings.Service.{settle_principal_savings}
use be_lumbung_mesari.Savings.Principal.{savings_of}
use be_lumbung_mesari.Users.Repository.{has_id, update_status}
use be_lumbung_mesari.Users.Service.{approve_in_transaction, reject_in_transaction, approve_user}
use be_lumbung_mesari.Users.Approval.{
  IsApproved, Outcome, approve_user-Outcome, approved_once, rejected_after_approval,
}
use be_lumbung_mesari.Auth.Members.{Step, Reach, IsSound, Reach-IsSound}
use be_lumbung_mesari.Witnesses.Fixtures.{after, opening, clock, book-IsConsistent}
use be_lumbung_mesari.Witnesses.People.{members}

approve_user-Outcome_example :
    Outcome
      (IsApproved opening clock 5 1 members)
      (record { status = UserStatus.active; user_id = 5 })
      true
      5
      members
      (approve_user clock true 5 1 members)
approve_user-Outcome_example = approve_user-Outcome opening clock true 5 1 members book-IsConsistent

abbrev approved : Db
approved = after (approve_in_transaction clock 5 1 members) members

approval : approve_in_transaction clock 5 1 members ≡ ok (tt, approved)
unfolding approve_in_transaction update_status settle_principal_savings update_principal_savings
    book_income create_categorised create_principal_savings_income create_income_transaction
    create_transaction cashbook_insert_balance write_balance ◌+ℤ◌ ◌-ℤ◌
approval = refl

approved_once_example : approve_in_transaction clock 5 2 approved ≢ ok (tt, approved)
approved_once_example =
    approved_once opening clock 5 1 members approved book-IsConsistent approval clock 2 approved

rejected_after_approval_example :
    (state : Db) × (reject_in_transaction 5 approved ≡ ok (tt, state))
    × ((u : User) × (find (has_id 5) state.users ≡ some u) × (u.status ≡ UserStatus.rejected))
    × ((p : PrincipalSavings) × (savings_of 5 state ≡ some p) × (p.status ≡ SavingsStatus.paid))
rejected_after_approval_example =
    rejected_after_approval opening clock 5 1 members approved book-IsConsistent approval

abbrev nobody : ℕ → Bool
nobody id = false

members-IsSound : IsSound nobody members
members-IsSound = (λ n a. absurd (cc a), tt)

Reach-IsSound_example : IsSound nobody approved
Reach-IsSound_example =
    Reach-IsSound nobody (Reach.next Reach.here (Step.approves clock 5 1 approval)) members-IsSound
