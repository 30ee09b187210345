-- ===== src/Dispatcher/TaskFile.antt =====
-- The MSG_TASK_FILE payload: what `send_task_file` of dispatcher.c builds, `handle_connection` of
-- worker.c takes apart.
use socket_project.Prelude.{
  ℕ, ◌+◌, ◌%◌, ◌^◌, ◌≤◌, ◌<◌, ◌≡◌, refl, sym, ap, ◌∙◌, Bool, true, false, some, ◌++◌, arith, ltb,
  leb, length, take, drop, length-append, take-append, drop-append, drop-drop, take-all,
}
use socket_project.Wire.{
  Bytes, be16, be32, of_be16, of_be32, max_file_size, max_filename_len, msg_task_file,
}
use socket_project.Wire.Codec.{of_be16-be16, of_be32-be32, length-be16, length-be32}
use socket_project.NetUtils.{send_msg, max_payload}
use socket_project.Worker.{Task, parse_task, parse_file}
use socket_project.Dispatcher.{task_payload, send_task_file}

-- What `run_repl` makes: the name fits `filename` with its NUL, and the file is at most 4 MB.
pub record IsTask (t : Task) : Type 0 where
  pub name_fits : length t.filename < max_filename_len
  pub file_fits : length t.file_data ≤ max_file_size

-- The payload with its lengths in the open.
abbrev plain : Task → Bytes
plain t = be16 (length t.filename) ++ (t.filename ++ (be32 (length t.file_data) ++ t.file_data))

task_payload-plain : (t : Task) → IsTask t → task_payload t ≡ plain t
unfolding task_payload
task_payload-plain t h =
    let small : length t.filename % 2 ^ 16 ≡ length t.filename = omega arith in
    rw (small, take-all (length t.filename) t.filename (omega arith))

length-plain : (t : Task) → length (plain t) ≡ 2 + length t.filename + 4 + length t.file_data
length-plain t = omega (
  arith,
  length-append (be16 (length t.filename))
      (t.filename ++ (be32 (length t.file_data) ++ t.file_data)),
  length-append t.filename (be32 (length t.file_data) ++ t.file_data),
  length-append (be32 (length t.file_data)) t.file_data,
  length-be16 (length t.filename),
  length-be32 (length t.file_data),
)

-- The payload stays under the limit of `recv_msg`, and is as long as it is announced.
pub length-task_payload :
    (t : Task)
    → IsTask t
    → (length (task_payload t) ≡ 2 + length t.filename + 4 + length t.file_data)
      × (length (task_payload t) ≤ max_payload)
length-task_payload t h =
    rw (task_payload-plain t h)
      (length-plain t, omega (arith, length-plain t, h.name_fits, h.file_fits))

drop_name :
    (t : Task) (offset : ℕ)
    → 2 + length t.filename ≡ offset
    → drop offset (plain t) ≡ be32 (length t.file_data) ++ t.file_data
drop_name t offset e =
    sym (drop-drop 2 (length t.filename) offset (plain t) e)
    ∙ ap (drop (length t.filename)) (drop-append 2 (be16 (length t.filename)) _ (length-be16 _))
    ∙ drop-append (length t.filename) t.filename _ refl

parse_file-plain :
    (t : Task) (plen offset : ℕ)
    → IsTask t
    → 2 + length t.filename ≡ offset
    → plen ≡ offset + 4 + length t.file_data
    → parse_file (plain t) plen t.filename offset ≡ some t
unfolding parse_file
parse_file-plain t plen offset h e p =
    let size : of_be32 (drop offset (plain t)) ≡ length t.file_data =
      rw (drop_name t offset e) (of_be32-be32 (length t.file_data) t.file_data (omega arith)) in
    let body : drop (offset + 4) (plain t) ≡ t.file_data =
      sym (drop-drop offset 4 (offset + 4) (plain t) refl)
      ∙ ap (drop 4) (drop_name t offset e)
      ∙ drop-append 4 (be32 (length t.file_data)) t.file_data (length-be32 (length t.file_data)) in
    let fits : ltb max_file_size (length t.file_data) ≡ false = ground (arith, h.file_fits) in
    let inside : ltb plen (offset + 4 + length t.file_data) ≡ false = ground arith in
    rw (size, body, fits, inside) (rw (take-all (length t.file_data) t.file_data (omega arith)))

-- For a task with a name under 256 bytes and a file of at most 4 MB, the guards of the worker's
-- handle_connection accept the payload that send_task_file builds and take the same name and file
-- out of it.
pub parse_task-task_payload :
    (t : Task) → IsTask t → parse_task (task_payload t) (length (task_payload t)) ≡ some t
unfolding parse_task
parse_task-task_payload t h =
    let n = length t.filename in
    let name_len : of_be16 (plain t) ≡ n = of_be16-be16 n _ (omega (arith, h.name_fits)) in
    let name : take n (drop 2 (plain t)) ≡ t.filename =
      ap (take n) (drop-append 2 (be16 n) _ (length-be16 n)) ∙ take-append n t.filename _ refl in
    let long_enough : ltb (length (plain t)) 6 ≡ false = ground (arith, length-plain t) in
    let short_name : leb max_filename_len n ≡ false = ground (arith, h.name_fits) in
    let inside : ltb (length (plain t)) (2 + n + 4) ≡ false = ground (arith, length-plain t) in
    rw (task_payload-plain t h, name_len, name, long_enough, short_name, inside)
      (parse_file-plain t (length (plain t)) (2 + n) h refl (length-plain t))

-- `send_task_file` sends that payload as one message.
pub send_task_file-eq :
    (malloc : ℕ → Bool) (t : Task)
    → IsTask t
    → malloc (length (task_payload t)) ≡ true
    → send_task_file malloc t
      ≡ send_msg msg_task_file (some (task_payload t)) (length (task_payload t))
unfolding send_task_file
send_task_file-eq malloc t h room =
    let small : length t.filename % 2 ^ 16 ≡ length t.filename = omega arith in
    let total : (2 + length t.filename + 4 + length t.file_data) % 2 ^ 32
        ≡ length (task_payload t) =
      omega (arith, (length-task_payload t h).0, h.name_fits, h.file_fits) in
    rw (small, total, room)
