-- ===== src/Lib.antt =====
-- Lumbung Mesari is the backend of a savings and loan cooperative (NestJS over PostgreSQL). Members
-- pay savings, borrow and repay in installments; the cooperative has expenses and incomes; and every
-- movement of money passes through a cashbook of two funds, the capital and the surplus (SHU), whose
-- balances the triggers of the database keep. Members register, verify a one-time password, pay a
-- deposit and are approved. This library models these services, the queries and triggers that they
-- rest on, and the lists and totals that are read from them.
--
-- How the parts correspond to the code:
--   Prelude, Exec       shared names; signed amounts over the native numbers; results. A step of a
--                       database transaction is a function from the tables to a result (`Tx`: a
--                       throw rolls back, so it has no state); a method returns its result and the
--                       tables (`Exec`).
--   Cashbook            src/cashbook and the triggers of src/database/migrations: Table, Trigger,
--                       Repository and Service are the code; Movement, Rows, Ledger, Consistency,
--                       Replacement, Effects, Undoing and Deletion are about it. The ledger
--                       is behind the balances (`IsConsistent`) if each fund is its opening balance
--                       and the signed sum of the rows that still belong to an income or an expense,
--                       the total is their sum, neither fund is negative, and no row has a negative
--                       amount or two owners.
--   Calendar            the calendar dates behind JavaScript's `Date`, with the overflow of `setMonth`.
--   Db                  the tables, and a step on the cashbook's part of them.
--   Expenses            src/expenses: Allocation and Service are the code; Split, Books and Changes
--                       are about it.
--   Incomes             src/incomes, and the pair of calls that books an income; Bookings is about it.
--   Loans               src/loans: Rounding, Payments, Schedule, Repository, Application, Service and
--                       Overdue are the code; Dates, Totals, Plan, Settlement, Decisions,
--                       Disbursement, Lifecycle, Once, Oldest, Penalties and Limits are about it.
--   Savings             src/savings and src/users-savings: Records, Service and Listing are the code;
--                       Generation, Settlement, Principal and Periods are about it.
--   Users               src/users: Repository, Service and Listing are the code; Approval and Updates
--                       are about it. `decide_user` is the frame of approveUser and rejectUser.
--   Auth                src/auth: Otp, Tokens and Service are the code, with the strategies and guards
--                       in Tokens; Codes, Verification, Credentials, Registration, Sessions and
--                       Members are about it. Members has the commits of Users and Auth as a step
--                       relation.
--   Pagination          src/database/base.repository.ts: pages of a query and loops over them; Complete
--                       is about it.
--   Transactions        the lists of src/cashbook; Entries is about them.
--   Reports             src/reports up to the spreadsheet; Totals is about it.
--   Controllers         the routes that write, with their guards and what they catch: those of loans,
--                       users and savings, with Expenses and Accounts for src/expenses and src/auth;
--                       Reads has the routes that read records of members; Callers and Privacy are about
--                       who gets an answer.
--   Schedulers          the jobs of src/loans and src/savings, with or without their advisory lock.
--   Program             the routes and jobs together: a step is a request, a visit or a job, and a run
--                       is a list of them. Roles is about who may take a step. Kept says what
--                       each transaction of the program has to keep; Borrowing, Spending, Membership
--                       and Steps lead from there to the methods, the requests and the runs, by the
--                       rules of Exec/Keeps. Well, Money, People and Runs fill it for the ledger and
--                       the members; OfLoans, Progress, Life, Keys, Counted and Limit fill it for
--                       properties of the loans.
--   Witnesses           concrete runs.
--
-- Names are those of the code in snake case: `createIncomeTransaction` is `create_income_transaction`.
-- `…_in_transaction` is the body of a method between the opening of its transaction and the commit.
--
-- Numbers. An amount is counted in ten-thousandths of a rupiah, the scale of the DECIMAL(12, 4)
-- columns, and is a signed whole number; interest rates are counted in ten-thousandths too. Where the
-- code multiplies an amount by a rate before it is stored, the product is counted in
-- hundred-millionths, so nothing is rounded but by the code. Floating point is read as exact. How
-- PostgreSQL rounds to four decimals is a parameter of `create_loan`, with the law that whole
-- ten-thousandths stay. The limit of the columns and the CHECK that a balance is not negative are
-- modelled for the balances, not for the other tables.
--
-- Keys are numbers that the database draws in place of UUIDs. A loop over a tenor or over months is
-- structural on the number of rounds that are left, and most other loops are over lists. The loops
-- of the report go on while there is a next page: they have one round more than there are rows,
-- which is enough (`process_pages-for_each`). The digits of a number are written on fuel that is one
-- more than the number, and a division by ten takes at least one from it. Transactions run one after
-- another; `Once` also covers a method that reads before its transaction while another one commits
-- in between, and so do Approval, Verification and Members.
--
-- What is not in the repository is a parameter: bcrypt and jsonwebtoken (`Libraries`, with the laws
-- that a password matches its hash and that a token verifies until it expires), randomInt of
-- node:crypto (with the law that it draws within the bounds that it is given), PostgreSQL's text
-- search and order of texts. The time, what is drawn at random, and whether a mail is taken are
-- arguments (`Call`).
--
-- Not modelled: notifications and mail beyond their outcome; the other routes that only read, throttling
-- and the validation of requests; the list of expenses; advisory locks, configuration and seeds; the
-- spreadsheet of the report; what is only logged. The trigger on deleted cashbook rows is left out,
-- since no modelled method deletes one. The lengths of text columns are left out.
pub mod Prelude
pub mod Program
pub mod Exec
pub mod Cashbook
pub mod Calendar
pub mod Controllers
pub mod Schedulers
pub mod Db
pub mod Expenses
pub mod Incomes
pub mod Loans
pub mod Savings
pub mod Pagination
pub mod Users
pub mod Reports
pub mod Transactions
pub mod Auth
pub mod Witnesses
