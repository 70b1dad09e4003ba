-- ===== src/Chat/Examples/Accounts.antt =====
-- Two accounts and the notes of a user, to which the theorems on them are applied.
use tusa.Common.{
  ℕ, ◌+◌, ◌-◌, ◌≡◌, ◌≢◌, refl, [], ◌∷◌, true, false, ◌==◌, ltb, if◌then◌else◌, ◌||◌, arith,
}
use tusa.Core.Buffer.Out.{new_buffer}
use tusa.Core.Buffer.Appends.{new_buffer-IsWf}
use tusa.Core.Buffer.RoundTrip.{ReadsBack}
use tusa.Chat.Notes.{NoteFileHead, NoteFolder, UNotes, notes, cache_dir}
use tusa.Chat.Notes.Packed.{FitsHead, FitsFolder, FitsNotes, notes-ReadsBack}
use tusa.Chat.Notes.Dirs.{cache_dir-differs}
use tusa.Chat.Credits.{Bank, Credits, bought, buy_thing}
use tusa.Chat.Credits.Transfers.{BankLaws, moved, buy_thing-moves}

-- A table of sums in hundredths of a credit
abbrev bank : Bank ℕ (ℕ → ℕ)
bank = record {
  add = λ x y. x + y;
  sub = λ x y. x - y;
  is_negative = λ x. false;
  is_below = λ x y. ltb x y;
  summa = λ i s. s i;
  increase = λ x i s j. if j == i then s i + x else s j;
  decrease = λ x i s j. if j == i then s i - x else s j;
}

abbrev AnyRow : ℕ → (ℕ → ℕ) → Type 0
AnyRow i s = Unit

abbrev bank_laws : BankLaws bank AnyRow
bank_laws = record {
  summa_increase = λ i j x s h. refl;
  summa_decrease = λ i j x s h. refl;
  has_row_decrease = λ i j x s h. tt;
}

abbrev credits : Credits ℕ (ℕ → ℕ)
credits = record { accounts = λ i. if i == 7 then 500 else 20; transactions = [] }

buy_thing-moves_example :
    if false || 7 == 8 || ltb 500 300
    then (((buy_thing bank 7 8 300 [] 99 credits).0 ≢ bought)
        × ((buy_thing bank 7 8 300 [] 99 credits).1 ≡ credits))
    else (((buy_thing bank 7 8 300 [] 99 credits).0 ≡ bought)
        × ((j : ℕ)
            → (buy_thing bank 7 8 300 [] 99 credits).1.accounts j
              ≡ moved bank AnyRow bank_laws 7 8 300 j credits.accounts))
buy_thing-moves_example = buy_thing-moves bank AnyRow bank_laws 7 8 300 [] 99 credits tt tt

cache_dir-differs_example : cache_dir 12345678 ≢ cache_dir 12345679
cache_dir-differs_example =
    cache_dir-differs 12345678 12345679 (omega arith) (omega arith) (omega arith)

abbrev head : NoteFileHead
head = record {
  subject = 72 ∷ 105 ∷ [];
  from_nick = 65 ∷ [];
  to_nick = 66 ∷ [];
  to_nick_id = 2;
  from_nick_id = 1;
  to_uid = 20;
  from_uid = 10;
  unread = true;
  important = false;
  system = false;
  content_length = 300;
  send_date = 1000000000;
  status = 1;
  has_attachment = false;
  attachment_filename = [];
  attachment_content_length = 0;
  notify_read = 1;
}

abbrev folder : NoteFolder
folder = record { name = 73 ∷ []; filter_in = 10 ∷ 12 ∷ []; filter_out = []; vec_msgs = 5 ∷ [] }

abbrev user_notes : UNotes
user_notes = record {
  map_folders = (1, folder) ∷ [];
  map_msgs = (5, record { id = 5; nfh = head }) ∷ [];
}

head_fits : FitsHead head
head_fits = (
  omega arith,
  (
    omega arith,
    (
      omega arith,
      (
        omega arith,
        (
          omega arith,
          (
            omega arith,
            (
              omega arith,
              (
                tt,
                (
                  tt,
                  (
                    tt,
                    (
                      omega arith,
                      (omega arith, (omega arith, (tt, (omega arith, (omega arith, omega arith))))),
                    ),
                  ),
                ),
              ),
            ),
          ),
        ),
      ),
    ),
  ),
)

folder_fits : FitsFolder folder
folder_fits = (
  omega arith,
  (
    (omega arith, (omega arith, (omega arith, tt)), ((omega arith, tt), (tt, tt))),
    ((omega arith, tt, tt), (omega arith, (omega arith, tt))),
  ),
)

notes_fit : FitsNotes user_notes
notes_fit = (
  (omega arith, ((omega arith, folder_fits), tt), (tt, tt)),
  (omega arith, ((omega arith, (omega arith, head_fits)), tt), (tt, tt)),
)

notes-ReadsBack_example :
    ReadsBack notes.get user_notes (new_buffer 0) (notes.put user_notes (new_buffer 0))
notes-ReadsBack_example = notes-ReadsBack user_notes (new_buffer 0) (new_buffer-IsWf 0) notes_fit
