-- ===== src/Ledger/Service/Again.antt =====
-- A method of src/ledger/service.ts that is called again.
use ticash_pay_demo.Prelude.Names.{◌≡◌, refl}
use ticash_pay_demo.Prelude.Text.{Text}
use ticash_pay_demo.Prelude.Result.{Result, ok, err}
use ticash_pay_demo.Ledger.Types.{JournalDraft, PostedJournal}
use ticash_pay_demo.Ledger.Operations.Balanced.{Balances}
use ticash_pay_demo.Ledger.Store.{Ledger}
use ticash_pay_demo.Ledger.Store.Outcome.{post_again}
use ticash_pay_demo.Ledger.Service.{Request, draft, post_draft, perform}
use ticash_pay_demo.Ledger.Service.Coherent.{IsCoherent, draft-Balances}

-- After a call that returned, the same call at any time gives the same answer and leaves the
-- ledger as it is.
pub perform_again :
    (now now' : Text) (r : Request) (s : Ledger) (p : PostedJournal)
    → (perform now r s).0 ≡ ok p
    → IsCoherent r
    → perform now' r (perform now r s).1 ≡ (ok p, (perform now r s).1)
unfolding perform
perform_again now now' r s p done fits = again (draft r) (draft-Balances r fits) done
  where
    again :
        (d : Result JournalDraft)
        → Balances d
        → (post_draft now s d).0 ≡ ok p
        → post_draft now' (post_draft now s d).1 d ≡ (ok p, (post_draft now s d).1)
    again (err e) b h = cc
    again (ok j) b h = post_again now now' j j s p h b refl
