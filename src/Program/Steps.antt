-- ===== src/Program/Steps.antt =====
-- Every run of the program leaves what its transactions keep.
use be_lumbung_mesari.Prelude.{true, false, List, [], ◌∷◌}
use be_lumbung_mesari.Exec.{Exec, Result, ok}
use be_lumbung_mesari.Exec.Keeps.{Leaves, method_rules}
use be_lumbung_mesari.Calendar.{Clock}
use be_lumbung_mesari.Db.{Db, UserRole}
use be_lumbung_mesari.Auth.Tokens.{UserJwt}
use be_lumbung_mesari.Auth.Service.{Call}
use be_lumbung_mesari.Savings.Service.{generate_remaining_year_savings}
use be_lumbung_mesari.Schedulers.{check_overdue_installments, create_yearly_savings}
use be_lumbung_mesari.Controllers.{
  catching, guarded, create_loan_route, approve_loan_route, reject_loan_route, disburse_loan_route,
  settle_installment_route, approve_user_route, reject_user_route, settle_mandatory_savings_route,
  generate_remaining_year_route,
}
use be_lumbung_mesari.Controllers.Expenses.{
  create_expense_route, update_expense_route, delete_expense_route,
}
use be_lumbung_mesari.Controllers.Accounts.{
  login_route, register_route, verify_otp_route, resend_otp_route, request_password_reset_route,
  confirm_password_reset_route,
}
use be_lumbung_mesari.Program.{Env, Request, Visit, Job, Event, serve, welcome, work, step, run}
use be_lumbung_mesari.Program.Kept.{IsKept}
use be_lumbung_mesari.Program.Borrowing.{
  create_loan-Leaves, approve_loan-Leaves, reject_loan-Leaves, disburse_loan-Leaves,
  settle_installment-Leaves, settle_mandatory-Leaves, generate_savings-Leaves, create_yearly-Leaves,
  process_overdue-Leaves,
}
use be_lumbung_mesari.Program.Spending.{
  create_expense-Leaves, update_expense-Leaves, delete_expense-Leaves,
}
use be_lumbung_mesari.Program.Membership.{
  approve_user-Leaves, reject_user-Leaves, resend_otp-Leaves, verify_otp-Leaves, login-Leaves,
  register-Leaves, confirm_password_reset-Leaves, request_password_reset-Leaves,
}

catching-Leaves :
    {A : Type 0} {P : Db → Type 0} (handle : Result A → Result A) (m : Exec Db A)
    → Leaves P m
    → Leaves P (catching handle m)
catching-Leaves handle m k = record { holds = λ s h. k.holds s h }

abbrev generates : Env → Clock → Exec Db Unit
generates env clock s =
    (ok tt, generate_remaining_year_savings env.mandatory_savings_amount clock.date s)

module _ (env : Env) (P : Db → Type 0) (kept : IsKept env P) where
  module _ (clock : Clock) (token : env.libraries.Token) where
    guarded-Leaves :
        {A : Type 0} (roles : List UserRole) (handler : UserJwt → Exec Db A)
        → ((user : UserJwt) → Leaves P (handler user))
        → Leaves P (guarded env.libraries env.secrets clock token roles handler)
    unfolding guarded
    guarded-Leaves roles handler k = search (method_rules, k)

    -- A request with a token leaves what is kept.
    serve-Leaves : (r : Request) (s : Db) → P s → P (serve env clock token r s)
    unfolding serve create_loan_route approve_loan_route reject_loan_route disburse_loan_route
        settle_installment_route approve_user_route reject_user_route settle_mandatory_savings_route
        generate_remaining_year_route create_expense_route update_expense_route delete_expense_route
        verify_otp_route resend_otp_route
    serve-Leaves (Request.creates_loan dto) s h =
        let keeps = create_loan-Leaves env P kept in
        let leaves : Leaves P (
            create_loan_route env.libraries env.secrets clock token env.store env.admin_fee_rate
              dto) =
          search (guarded-Leaves, method_rules, keeps) in
        leaves.holds s h
    serve-Leaves (Request.approves_loan id notes) s h =
        let keeps = approve_loan-Leaves env P kept in
        let leaves : Leaves P (approve_loan_route env.libraries env.secrets clock token id notes) =
          search (guarded-Leaves, method_rules, keeps) in
        leaves.holds s h
    serve-Leaves (Request.rejects_loan id reason) s h =
        let keeps = reject_loan-Leaves env P kept in
        let leaves : Leaves P (reject_loan_route env.libraries env.secrets clock token id reason) =
          search (guarded-Leaves, method_rules, keeps) in
        leaves.holds s h
    serve-Leaves (Request.disburses_loan id) s h =
        let keeps = disburse_loan-Leaves env P kept in
        let leaves : Leaves P (disburse_loan_route env.libraries env.secrets clock token id) =
          search (guarded-Leaves, method_rules, keeps) in
        leaves.holds s h
    serve-Leaves (Request.settles_installment id) s h =
        let keeps = settle_installment-Leaves env P kept in
        let leaves : Leaves P (settle_installment_route env.libraries env.secrets clock token id) =
          search (guarded-Leaves, method_rules, keeps) in
        leaves.holds s h
    serve-Leaves (Request.approves_user mailed id) s h =
        let keeps = approve_user-Leaves env P kept in
        let leaves : Leaves P (approve_user_route env.libraries env.secrets clock token mailed id) =
          search (guarded-Leaves, method_rules, catching-Leaves, keeps) in
        leaves.holds s h
    serve-Leaves (Request.rejects_user mailed id) s h =
        let keeps = reject_user-Leaves env P kept in
        let leaves : Leaves P (reject_user_route env.libraries env.secrets clock token mailed id) =
          search (guarded-Leaves, method_rules, catching-Leaves, keeps) in
        leaves.holds s h
    serve-Leaves (Request.settles_savings id) s h =
        let keeps = settle_mandatory-Leaves env P kept in
        let leaves : Leaves P
            (settle_mandatory_savings_route env.libraries env.secrets clock token id) =
          search (guarded-Leaves, method_rules, catching-Leaves, keeps) in
        leaves.holds s h
    serve-Leaves Request.generates_savings s h =
        let keeps : Leaves P (generates env clock) = record {
          holds = generate_savings-Leaves env P kept env.mandatory_savings_amount clock.date;
        } in
        let leaves : Leaves P (
            generate_remaining_year_route env.libraries env.secrets clock token
              env.mandatory_savings_amount) =
          search (guarded-Leaves, method_rules, keeps) in
        leaves.holds s h
    serve-Leaves (Request.creates_expense dto) s h =
        let keeps = create_expense-Leaves env P kept in
        let leaves : Leaves P (create_expense_route env.libraries env.secrets clock token dto) =
          search (guarded-Leaves, method_rules, catching-Leaves, keeps) in
        leaves.holds s h
    serve-Leaves (Request.updates_expense id dto) s h =
        let keeps = update_expense-Leaves env P kept in
        let leaves : Leaves P (update_expense_route env.libraries env.secrets clock token id dto) =
          search (guarded-Leaves, method_rules, catching-Leaves, keeps) in
        leaves.holds s h
    serve-Leaves (Request.deletes_expense id) s h =
        let keeps = delete_expense-Leaves env P kept in
        let leaves : Leaves P (delete_expense_route env.libraries env.secrets clock token id) =
          search (guarded-Leaves, method_rules, catching-Leaves, keeps) in
        leaves.holds s h
    serve-Leaves (Request.verifies_otp call code) s h =
        let keeps = verify_otp-Leaves env P kept in
        let leaves : Leaves P (
            verify_otp_route env.libraries env.secrets clock token call env.principal_savings_amount
              code) =
          search (guarded-Leaves, method_rules, catching-Leaves, keeps) in
        leaves.holds s h
    serve-Leaves (Request.resends_otp call) s h =
        let keeps = resend_otp-Leaves env P kept in
        let leaves : Leaves P (resend_otp_route env.libraries env.secrets clock token call) =
          search (guarded-Leaves, method_rules, catching-Leaves, keeps) in
        leaves.holds s h

  welcome-Leaves : (call : Call) (v : Visit) (s : Db) → P s → P (welcome env call v s)
  unfolding welcome login_route register_route request_password_reset_route
      confirm_password_reset_route
  welcome-Leaves call (Visit.logs_in identifier password) s h =
      (login-Leaves env P kept env.libraries env.secrets call identifier password).holds s h
  welcome-Leaves call (Visit.registers dto) s h =
      (register-Leaves env P kept env.libraries env.secrets call dto).holds s h
  welcome-Leaves call (Visit.requests_reset email) s h =
      (request_password_reset-Leaves env P kept call email).holds s h
  welcome-Leaves call (Visit.confirms_reset token password confirmation) s h =
      (confirm_password_reset-Leaves env P kept env.libraries call token password
          confirmation).holds
        s h

  work-Leaves : (clock : Clock) (j : Job) (s : Db) → P s → P (work env clock j s)
  unfolding work check_overdue_installments create_yearly_savings
  work-Leaves clock (Job.checks_overdue_installments true) s h =
      process_overdue-Leaves env P kept clock.date s h
  work-Leaves clock (Job.checks_overdue_installments false) s h = h
  work-Leaves clock (Job.creates_yearly_savings true) s h =
      create_yearly-Leaves env P kept env.mandatory_savings_amount clock.date s h
  work-Leaves clock (Job.creates_yearly_savings false) s h = h

  step-Leaves : (e : Event env) (s : Db) → P s → P (step env e s)
  unfolding step
  step-Leaves (Event.request clock token r) s h = serve-Leaves clock token r s h
  step-Leaves (Event.visit call v) s h = welcome-Leaves call v s h
  step-Leaves (Event.job clock j) s h = work-Leaves clock j s h

  pub run-Leaves : (es : List (Event env)) (s : Db) → P s → P (run env es s)
  unfolding run
  run-Leaves [] s h = h
  run-Leaves (e ∷ es) s h = run-Leaves es (step env e s) (step-Leaves e s h)
