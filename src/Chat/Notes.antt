-- ===== src/Chat/Notes.antt =====
-- The notes of a user: note_file_head, __note_head, __note_folder and u_notes of chatserver/notes.h with their
-- operators << and >> of chatserver/notes_containers.cpp, and the directories of a user there. A set and a
-- map are ascending lists.
pub mod Packed
pub mod Dirs
use tusa.Common.{ℕ, ◌+◌, ◌-◌, ◌*◌, ◌/◌, ◌%◌, List, [], ◌∷◌, Bool, ltb, if◌then◌else◌}
use tusa.Common.Maps.{Map, find}
use mathlib.Core.Option.{Option, none, some}
use tusa.Core.Buffer.Serial.{
  Operators, string, unsigned_int, unsigned_char, long, bool, pair, vector, set_of, map_of,
}
use tusa.Core.Buffer.Laws.{via}

pub record NoteFileHead : Type 0 where
  pub subject : List ℕ
  pub from_nick : List ℕ
  pub to_nick : List ℕ
  pub to_nick_id : ℕ
  pub from_nick_id : ℕ
  pub to_uid : ℕ
  pub from_uid : ℕ
  pub unread : Bool
  pub important : Bool
  pub system : Bool
  pub content_length : ℕ
  pub send_date : ℕ
  pub status : ℕ
  pub has_attachment : Bool
  pub attachment_filename : List ℕ
  pub attachment_content_length : ℕ
  pub notify_read : ℕ

pub record NoteHead : Type 0 where
  pub id : ℕ
  pub nfh : NoteFileHead

pub record NoteFolder : Type 0 where
  pub name : List ℕ
  pub filter_in : List ℕ
  pub filter_out : List ℕ
  pub vec_msgs : List ℕ

pub record UNotes : Type 0 where
  pub map_folders : Map NoteFolder
  pub map_msgs : Map NoteHead

-- The members are written, and read, in this order.
abbrev HeadFields : Type 0
HeadFields =
    List ℕ
    × (List ℕ
        × (List ℕ
            × (ℕ
                × (ℕ
                    × (ℕ
                        × (ℕ
                            × (Bool
                                × (Bool
                                    × (Bool
                                        × (ℕ × (ℕ × (ℕ × (Bool × (List ℕ × (ℕ × (ℕ))))))))))))))))

abbrev pub of_fields : HeadFields → NoteFileHead
of_fields t = record {
  subject = t.0;
  from_nick = t.1.0;
  to_nick = t.1.1.0;
  to_nick_id = t.1.1.1.0;
  from_nick_id = t.1.1.1.1.0;
  to_uid = t.1.1.1.1.1.0;
  from_uid = t.1.1.1.1.1.1.0;
  unread = t.1.1.1.1.1.1.1.0;
  important = t.1.1.1.1.1.1.1.1.0;
  system = t.1.1.1.1.1.1.1.1.1.0;
  content_length = t.1.1.1.1.1.1.1.1.1.1.0;
  send_date = t.1.1.1.1.1.1.1.1.1.1.1.0;
  status = t.1.1.1.1.1.1.1.1.1.1.1.1.0;
  has_attachment = t.1.1.1.1.1.1.1.1.1.1.1.1.1.0;
  attachment_filename = t.1.1.1.1.1.1.1.1.1.1.1.1.1.1.0;
  attachment_content_length = t.1.1.1.1.1.1.1.1.1.1.1.1.1.1.1.0;
  notify_read = t.1.1.1.1.1.1.1.1.1.1.1.1.1.1.1.1;
}

abbrev pub note_file_head : Operators NoteFileHead
note_file_head =
    via
      (λ c. (
        c.subject,
        (
          c.from_nick,
          (
            c.to_nick,
            (
              c.to_nick_id,
              (
                c.from_nick_id,
                (
                  c.to_uid,
                  (
                    c.from_uid,
                    (
                      c.unread,
                      (
                        c.important,
                        (
                          c.system,
                          (
                            c.content_length,
                            (
                              c.send_date,
                              (
                                c.status,
                                (
                                  c.has_attachment,
                                  (
                                    c.attachment_filename,
                                    (c.attachment_content_length, c.notify_read),
                                  ),
                                ),
                              ),
                            ),
                          ),
                        ),
                      ),
                    ),
                  ),
                ),
              ),
            ),
          ),
        ),
      ))
      of_fields
      (pair string (
        pair string (
          pair string (
            pair unsigned_int (
              pair unsigned_int (
                pair unsigned_int (
                  pair unsigned_int (
                    pair bool (
                      pair bool (
                        pair bool (
                          pair long (
                            pair long (
                              pair unsigned_char
                                (pair bool (pair string (pair long unsigned_int))))))))))))))))

abbrev pub note_head : Operators NoteHead
note_head =
    via (λ c. (c.id, c.nfh)) (λ t. record { id = t.0; nfh = t.1 })
      (pair unsigned_int note_file_head)

abbrev pub id_set : Operators (List ℕ)
id_set = set_of unsigned_int ltb

abbrev pub of_parts : List ℕ × (List ℕ × (List ℕ × List ℕ)) → NoteFolder
of_parts t = record { name = t.0; filter_in = t.1.0; filter_out = t.1.1.0; vec_msgs = t.1.1.1 }

abbrev pub note_folder : Operators NoteFolder
note_folder =
    via (λ c. (c.name, (c.filter_in, (c.filter_out, c.vec_msgs)))) of_parts
      (pair string (pair id_set (pair id_set (vector unsigned_int))))

-- pack, and unpack of a u_notes without folders and messages
abbrev pub notes : Operators UNotes
notes =
    via (λ c. (c.map_folders, c.map_msgs)) (λ t. record { map_folders = t.0; map_msgs = t.1 })
      (pair (map_of unsigned_int note_folder ltb) (map_of unsigned_int note_head ltb))

unfoldable pub find_msg_by_id : ℕ → UNotes → Option NoteHead
unfolding find
find_msg_by_id i c = find i c.map_msgs

-- The numbers between the slashes that cache_dir, cache_dir2 and homedir print behind the name: how many digits
-- there are, and the digits two by two. An id from 10 ^ 8 on throws.
unfoldable pub cache_dir : ℕ → Option (List ℕ)
cache_dir uid =
    if ltb uid 100
    then some (0 ∷ uid ∷ [])
    else if ltb uid 10000
    then some (1 ∷ uid / 100 ∷ uid % 100 ∷ [])
    else if ltb uid 1000000
    then (let u1 = uid / 10000 in some (2 ∷ u1 ∷ (uid - u1 * 10000) / 100 ∷ uid % 100 ∷ []))
    else if ltb uid 100000000
    then (let u1 = uid / 1000000 in
        some (3 ∷ u1 ∷ (uid - u1 * 1000000) / 10000 ∷ (uid - u1 * 10000) / 100 ∷ uid % 100 ∷ []))
    else none

-- __new_cache_dir, which leaves the last two digits out
unfoldable pub new_cache_dir : ℕ → Option (List ℕ)
unfolding cache_dir
new_cache_dir uid = cache_dir (uid / 100)
