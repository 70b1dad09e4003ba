-- ===== src/Chat/Notes/Packed.antt =====
-- The operators << and >> of notes in chatserver/notes_containers.cpp.
use tusa.Common.{ℕ, ◌^◌, ◌<◌, refl, List, length, All, ltb}
use tusa.Common.Maps.{Map}
use tusa.Core.Buffer.Out.{OutBuffer}
use tusa.Core.Buffer.Appends.{IsWf}
use tusa.Core.Buffer.RoundTrip.{ReadsBack}
use tusa.Core.Buffer.Serial.{Operators, unsigned_int, map_of}
use tusa.Core.Buffer.Laws.{
  Lawful, Lawful-ReadsBack, IsBelow, via-Lawful, unsigned_int-Lawful, unsigned_char-Lawful,
  long-Lawful, bool-Lawful, string-Lawful, pair-Lawful,
}
use tusa.Core.Buffer.Containers.{IsSortedBy, IsSortedBy-IsAscending, set_of-Lawful, vector-Lawful}
use tusa.Chat.Notes.{
  of_fields, of_parts, NoteFileHead, NoteHead, NoteFolder, UNotes, note_file_head, note_head,
  id_set, note_folder, notes,
}

abbrev IsText : List ℕ → Type 0
IsText s = length s < 2 ^ 31

abbrev pub FitsHead : NoteFileHead → Type 0
FitsHead c =
    IsText c.subject
    × (IsText c.from_nick
        × (IsText c.to_nick
            × (IsBelow 32 c.to_nick_id
                × (IsBelow 32 c.from_nick_id
                    × (IsBelow 32 c.to_uid
                        × (IsBelow 32 c.from_uid
                            × (Unit
                                × (Unit
                                    × (Unit
                                        × (IsBelow 32 c.content_length
                                            × (IsBelow 32 c.send_date
                                                × (IsBelow 8 c.status
                                                    × (Unit
                                                        × (IsText c.attachment_filename
                                                            × (IsBelow 32
                                                            c.attachment_content_length
                                                            × (IsBelow 32
                                                            c.notify_read))))))))))))))))

abbrev pub FitsIds : List ℕ → Type 0
FitsIds s = (length s < 2 ^ 32) × All (IsBelow 32) s × IsSortedBy (λ x. x) s

abbrev pub FitsFolder : NoteFolder → Type 0
FitsFolder c =
    IsText c.name
    × (FitsIds c.filter_in
        × (FitsIds c.filter_out × ((length c.vec_msgs < 2 ^ 32) × All (IsBelow 32) c.vec_msgs)))

-- A map of fewer than 2 ^ 32 values that fit, in the order of its keys
abbrev pub FitsMap : {A : Type 0} → (A → Type 0) → Map A → Type 0
FitsMap P m = (length m < 2 ^ 32) × All (λ e. IsBelow 32 e.0 × P e.1) m × IsSortedBy (λ e. e.0) m

abbrev pub FitsNotes : UNotes → Type 0
FitsNotes c =
    FitsMap FitsFolder c.map_folders × FitsMap (λ h. IsBelow 32 h.id × FitsHead h.nfh) c.map_msgs

head-Lawful : Lawful note_file_head FitsHead
head-Lawful =
    via-Lawful {A = NoteFileHead} _ of_fields (λ c. refl)
      (pair-Lawful string-Lawful (
        pair-Lawful string-Lawful (
          pair-Lawful string-Lawful (
            pair-Lawful unsigned_int-Lawful (
              pair-Lawful unsigned_int-Lawful (
                pair-Lawful unsigned_int-Lawful (
                  pair-Lawful unsigned_int-Lawful (
                    pair-Lawful bool-Lawful (
                      pair-Lawful bool-Lawful (
                        pair-Lawful bool-Lawful (
                          pair-Lawful long-Lawful (
                            pair-Lawful long-Lawful (
                              pair-Lawful unsigned_char-Lawful (
                                pair-Lawful bool-Lawful (
                                  pair-Lawful string-Lawful
                                    (pair-Lawful long-Lawful unsigned_int-Lawful))))))))))))))))

note-Lawful : Lawful note_head (λ h. IsBelow 32 h.id × FitsHead h.nfh)
note-Lawful =
    via-Lawful {A = NoteHead} _ (λ t. record { id = t.0; nfh = t.1 }) (λ c. refl)
      (pair-Lawful unsigned_int-Lawful head-Lawful)

ids-Lawful : Lawful id_set FitsIds
ids-Lawful =
    let l = set_of-Lawful unsigned_int-Lawful ltb in
    record {
      bytes = l.bytes;
      writes = λ v h. l.writes v (h.0, h.1, IsSortedBy-IsAscending (λ x. x) v h.2);
      reads = λ v h. l.reads v (h.0, h.1, IsSortedBy-IsAscending (λ x. x) v h.2);
    }

folder-Lawful : Lawful note_folder FitsFolder
folder-Lawful =
    via-Lawful {A = NoteFolder} _ of_parts (λ c. refl)
      (pair-Lawful string-Lawful
        (pair-Lawful ids-Lawful (pair-Lawful ids-Lawful (vector-Lawful unsigned_int-Lawful))))

map-Lawful :
    {A : Type 0} {x : Operators A} {P : A → Type 0}
    → Lawful x P
    → Lawful (map_of unsigned_int x ltb) (FitsMap P)
map-Lawful {x = x} l =
    let s = set_of-Lawful (pair-Lawful unsigned_int-Lawful l) (λ e f. ltb e.0 f.0) in
    record {
      bytes = s.bytes;
      writes = λ v h. s.writes v (h.0, h.1, IsSortedBy-IsAscending (λ e. e.0) v h.2);
      reads = λ v h. s.reads v (h.0, h.1, IsSortedBy-IsAscending (λ e. e.0) v h.2);
    }

notes-Lawful : Lawful notes FitsNotes
notes-Lawful =
    via-Lawful {A = UNotes} _ (λ t. record { map_folders = t.0; map_msgs = t.1 }) (λ c. refl)
      (pair-Lawful (map-Lawful folder-Lawful) (map-Lawful note-Lawful))

-- The notes of a user, folders with their filters and messages and heads of messages, read back from a well-formed
-- buffer, if they fit: texts have fewer than 2 ^ 31 bytes, containers fewer than 2 ^ 32 elements, numbers fit their types,
-- sizes and dates 32 bits, and sets and maps ascend.
pub notes-ReadsBack :
    (n : UNotes) (b : OutBuffer) → IsWf b → FitsNotes n → ReadsBack notes.get n b (notes.put n b)
notes-ReadsBack n b w h = Lawful-ReadsBack notes-Lawful b n w h
