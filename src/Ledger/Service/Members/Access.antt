-- ===== src/Ledger/Service/Members/Access.antt =====
-- Requests of actors who do not manage the book.
use accounting.Ledger.Model.{Actor, Time, is_manager}
use accounting.Ledger.Service.{authorize_book_member, authorize_manager}
use accounting.Ledger.Service.Books.{book_to_update, may_add_member, removal_target, role_target}
use accounting.Ledger.Service.Members.{
  add_book_member, remove_book_member, update_book_member_role, update_book_request,
}
use accounting.Ledger.Service.Members.History.{Request, serve_one}
use accounting.Ledger.Store.{MemoryStore}
use accounting.Ledger.Store.Books.{member_of}
use accounting.Prelude.{Bool, arith, false, refl, true, ◌≡◌}
use accounting.Prelude.Result.{Action, Result, and_then, err, ok}
use accounting.Prelude.Text.{Text}

-- The actor is an owner or an administrator of the book.
abbrev pub manages : Actor → Text → MemoryStore → Bool
manages actor book_id s = elim (member_of book_id actor.user_id s) [
  | ok m ↦ is_manager m.role
  | err _ ↦ false
]

-- Anyone may create a book; the other requests are for managers of theirs.
abbrev pub may_ask : Request → MemoryStore → Bool
may_ask (Request.create_a_book r id id_for) s = true
may_ask (Request.change_settings r) s = manages r.actor r.book_id s
may_ask (Request.add_member r) s = manages r.actor r.book_id s
may_ask (Request.change_member_role r) s = manages r.actor r.book_id s
may_ask (Request.remove_member r) s = manages r.actor r.book_id s

abbrev is_ok : {A : Type 0} → Result A → Bool
is_ok (ok _) = true
is_ok (err _) = false

authorize_manager-refuses :
    (actor : Actor) (b : Text) (s : MemoryStore)
    → manages actor b s ≡ false
    → is_ok (authorize_manager actor b s) ≡ false
unfolding authorize_manager authorize_book_member
authorize_manager-refuses actor b s h = ground arith

stops :
    {A B : Type 0} (x : Result A) (k : A → Action MemoryStore B) (s : MemoryStore)
    → is_ok x ≡ false
    → (and_then x k s).1 ≡ s
stops (ok a) k s h = absurd (cc)
stops (err e) k s h = refl

-- A request that its actor may not make leaves the store as it was.
pub refused_unchanged :
    (r : Request) (now : Time) (s : MemoryStore) → may_ask r s ≡ false → serve_one r now s ≡ s
unfolding serve_one update_book_request add_book_member update_book_member_role remove_book_member
    book_to_update may_add_member role_target removal_target
refused_unchanged (Request.create_a_book r id id_for) now s h = absurd (cc)
refused_unchanged (Request.change_settings r) now s h =
    stops (book_to_update r s) _ s (ground (arith, authorize_manager-refuses r.actor r.book_id s h))
refused_unchanged (Request.add_member r) now s h =
    stops (may_add_member r s) _ s (ground (arith, authorize_manager-refuses r.actor r.book_id s h))
refused_unchanged (Request.change_member_role r) now s h =
    stops (role_target r s) _ s (ground (arith, authorize_manager-refuses r.actor r.book_id s h))
refused_unchanged (Request.remove_member r) now s h =
    stops (removal_target r s) _ s (ground (arith, authorize_manager-refuses r.actor r.book_id s h))
