-- ===== src/Transactions/Acting/Accounts.antt =====
-- The two accounts of a new transfer (frontend/app/transactions/page.tsx).
use pfv.Common.{◌≡◌, ap, ◌∙◌, true, none, some, List, if◌then◌else◌}
use pfv.Transactions.Rows.{Account}
use pfv.Transactions.Adding.{Form}
use pfv.Transactions.Acting.{
  same_id, handle_account_change, default_account, preselect_account, preselect,
}

-- Where the account is taken back while the default account is the target, the form chooses the
-- default account again, and the transfer goes from it to itself.
pub preselect-same_account :
    (accounts : List Account) (d : Account) (f : Form)
    → default_account accounts ≡ some d
    → f.form_to_account_id ≡ some d.id
    → let next = preselect accounts true (handle_account_change accounts none f) in
      (next.form_account_id ≡ some d.id) × (next.form_to_account_id ≡ some d.id)
unfolding handle_account_change preselect
preselect-same_account accounts d f h k = (
  ap (λ o. (preselect_account o (handle_account_change accounts none f)).form_account_id) h,
  ap (λ o. (preselect_account o (handle_account_change accounts none f)).form_to_account_id) h
      ∙ ap (λ o. if same_id o none then none else o) k,
)
