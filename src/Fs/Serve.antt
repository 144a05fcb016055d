-- ===== src/Fs/Serve.antt =====
-- The requests of clients: fs/serv.c. The pages of the open files are known by their index in
-- `opentab`. How often a page is referred to is the kernel's answer to `pageref`; it changes when a client
-- maps or unmaps the page, which happens between two requests. `ipc_send` is the log of what was sent.
use mos_riscv.Prelude.{
  ℕ, zero, suc, ◌+◌, ◌/◌, ◌%◌, ◌^◌, Bool, true, false, ◌||◌, Option, none, some, List, ◌∷◌, ◌==◌,
  leb, if◌then◌else◌, update,
}
use mos_riscv.Kern.Error.{Error, Ret, success, e_no_mem, e_max_open, e_inval, e_file_exists}
use mos_riscv.Fs.Server.{Server, Io, Cmd, done, failed, stopped, cell, load, block_size}
use mos_riscv.Fs.Block.{fs_sync}
use mos_riscv.Fs.File.{File, file_get_block, file_dirty, file_set_size}
use mos_riscv.Fs.Ops.{file_open, file_create, file_close, file_remove}

abbrev pub maxopen : ℕ
maxopen = 1024

-- `struct Filefd`; `f_file` are the words of the copied descriptor.
pub record Filefd : Type 0 where
  pub f_file : ℕ → ℕ
  pub f_fileid : ℕ
  pub fd_omode : ℕ
  pub fd_dev_id : ℕ

-- `struct Open`; `o_ff` is the page of the same index.
pub record Open : Type 0 where
  pub o_file : Option File
  pub o_fileid : ℕ
  pub o_mode : ℕ

-- The page that goes with an answer.
pub data Page : Type 0 where
  no_page : Page
  filefd : ℕ → Page
  cached : ℕ → Page

pub record Answer : Type 0 where
  pub whom : ℕ
  pub value : Ret
  pub page : Page

pub record Serving : Type 0 where
  pub fs : Server
  pub opentab : ℕ → Open
  pub pageref : ℕ → ℕ
  pub o_ff : ℕ → Filefd
  pub sent : List Answer

-- A handler comes back, or the server panics.
abbrev pub Handler : Type 0
Handler = Serving → Option Serving

unfoldable pub ipc_send : ℕ → Ret → Page → Handler
ipc_send envid r page s =
    some (record s { sent = record { whom = envid; value = r; page = page } ∷ s.sent })

-- An operation on files, and what the handler does with its result or its error.
abbrev pub resume : {A : Type 0} → Io A → (A → Handler) → (Error → Handler) → Handler
resume (done a fs') k h s = k a (record s { fs = fs' })
resume (failed e fs') k h s = h e (record s { fs = fs' })
resume stopped k h s = none

abbrev pub on_fs : {A : Type 0} → Cmd A → (A → Handler) → (Error → Handler) → Handler
on_fs c k h s = resume (c s.fs) k h s

unfoldable pub serve_init : Serving → Serving
serve_init s = record s {
  opentab = λ i.
      if leb maxopen i
      then s.opentab i
      else record { o_file = (s.opentab i).o_file; o_fileid = i; o_mode = (s.opentab i).o_mode };
}

abbrev blank : Filefd
blank = record { f_file = λ _. 0; f_fileid = 0; fd_omode = 0; fd_dev_id = 0 }

-- What `open_alloc` returns.
pub data Opened : Type 0 where
  opened : ℕ → Serving → Opened
  refused : Error → Serving → Opened

-- The case 1 of the `switch`, which case 0 falls into.
unfoldable pub clear_ff : ℕ → Serving → Opened
clear_ff i s = opened i (record s { o_ff = update s.o_ff i blank })

-- The case 0: a page is asked for.
unfoldable pub new_ff : ℕ → Serving → Opened
new_ff i s =
    let fs' : Server = record s.fs { asked = s.fs.asked + 1 } in
    if s.fs.grants s.fs.asked
    then clear_ff i (record s { fs = fs'; pageref = update s.pageref i 1 })
    else refused e_no_mem (record s { fs = fs' })

-- The loop of `open_alloc`, with the rounds that are left.
unfoldable pub open_from : ℕ → ℕ → Serving → Opened
open_from zero i s = refused e_max_open s
open_from (suc left) i s =
    let rest = open_from left (i + 1) s in
    if s.pageref i == 0 then new_ff i s else if s.pageref i == 1 then clear_ff i s else rest

unfoldable pub open_alloc : Serving → Opened
open_alloc s = open_from maxopen 0 s

-- `none` is -E_INVAL.
unfoldable pub open_lookup : ℕ → Serving → Option ℕ
open_lookup fileid s = if leb maxopen fileid || leb (s.pageref fileid) 1 then none else some fileid

-- `O_CREAT` and `O_TRUNC`
abbrev pub is_creat : ℕ → Bool
is_creat omode = omode / 2 ^ 8 % 2 == 1

abbrev pub is_trunc : ℕ → Bool
is_trunc omode = omode / 2 ^ 9 % 2 == 1

abbrev pub is_file_exists : Error → Bool
is_file_exists e_file_exists = true
is_file_exists e = false

-- The end of `serve_open`, for the file `f` and the open file `i`.
unfoldable pub fill_ff : ℕ → ℕ → ℕ → File → Handler
fill_ff envid omode i f s = ipc_send envid success (filefd i) (record s {
  o_ff = update s.o_ff i (record {
    f_file = λ j. load s.fs (cell f.block (f.index + j));
    f_fileid = (s.opentab i).o_fileid;
    fd_omode = omode;
    fd_dev_id = 0x66;
  });
  opentab =
      update s.opentab i
        (record { o_file = some f; o_fileid = (s.opentab i).o_fileid; o_mode = omode });
})

-- `o->o_file = f`, and what follows. A failure of `file_set_size` is answered and passed over.
unfoldable pub open_found : ℕ → ℕ → ℕ → File → Handler
open_found envid omode i f s =
    let s' : Serving = record s {
      opentab = update s.opentab i (record {
        o_file = some f;
        o_fileid = (s.opentab i).o_fileid;
        o_mode = (s.opentab i).o_mode;
      });
    } in
    if is_trunc omode
    then on_fs (file_set_size f 0) (λ _. fill_ff envid omode i f)
        (λ e s2. elim (ipc_send envid (some e) no_page s2) [
          | none ↦ none
          | some s3 ↦ fill_ff envid omode i f s3
        ])
        s'
    else fill_ff envid omode i f s'

unfoldable pub open_file : ℕ → List ℕ → ℕ → ℕ → Handler
open_file envid path omode i =
    on_fs (file_open path) (open_found envid omode i) (λ e. ipc_send envid (some e) no_page)

unfoldable pub not_created : ℕ → List ℕ → ℕ → ℕ → Error → Handler
not_created envid path omode i e =
    if is_file_exists e then open_file envid path omode i else ipc_send envid (some e) no_page

unfoldable pub open_with : ℕ → List ℕ → ℕ → Opened → Option Serving
open_with envid path omode (refused e s) = ipc_send envid (some e) no_page s
open_with envid path omode (opened i s) =
    if is_creat omode
    then on_fs (file_create path) (λ _. open_file envid path omode i)
        (not_created envid path omode i) s
    else open_file envid path omode i s

unfoldable pub serve_open : ℕ → List ℕ → ℕ → Handler
serve_open envid path omode s = open_with envid path omode (open_alloc s)

-- What the other handlers do with the result of `open_lookup`: the error is sent, or the operation is
-- done on `o_file`. A pointer that was never set is NULL, and stops the server.
unfoldable pub with_open : ℕ → (File → Handler) → Option ℕ → Handler
with_open envid k none s = ipc_send envid (some e_inval) no_page s
with_open envid k (some i) s = elim (s.opentab i).o_file [ none ↦ none | some f ↦ k f s ]

-- An operation that is answered with its result and no page.
unfoldable pub answer_with : ℕ → Cmd (Unit {0}) → Handler
answer_with envid c =
    on_fs c (λ _. ipc_send envid success no_page) (λ e. ipc_send envid (some e) no_page)

unfoldable pub serve_map : ℕ → ℕ → ℕ → Handler
serve_map envid fileid offset s =
    with_open envid
      (λ f.
        on_fs (file_get_block f (offset / block_size)) (λ b. ipc_send envid success (cached b))
          (λ e. ipc_send envid (some e) no_page))
      (open_lookup fileid s) s

unfoldable pub serve_set_size : ℕ → ℕ → ℕ → Handler
serve_set_size envid fileid size s =
    with_open envid (λ f. answer_with envid (file_set_size f size)) (open_lookup fileid s) s

unfoldable pub serve_close : ℕ → ℕ → Handler
serve_close envid fileid s =
    with_open envid (λ f. answer_with envid (file_close f)) (open_lookup fileid s) s

unfoldable pub serve_remove : ℕ → List ℕ → Handler
serve_remove envid path = answer_with envid (file_remove path)

unfoldable pub serve_dirty : ℕ → ℕ → ℕ → Handler
serve_dirty envid fileid offset s =
    with_open envid (λ f. answer_with envid (file_dirty f offset)) (open_lookup fileid s) s

unfoldable pub serve_sync : ℕ → Handler
serve_sync envid = answer_with envid fs_sync

-- The requests, by their numbers in the enumeration of FSREQ_OPEN.
pub data Request : Type 0 where
  fsreq_open : List ℕ → ℕ → Request
  fsreq_map : ℕ → ℕ → Request
  fsreq_set_size : ℕ → ℕ → Request
  fsreq_close : ℕ → Request
  fsreq_dirty : ℕ → ℕ → Request
  fsreq_remove : List ℕ → Request
  fsreq_sync : Request

-- `serve_table[req](whom, REQVA)`
unfoldable pub serve_request : Request → ℕ → Handler
serve_request (fsreq_open path omode) whom = serve_open whom path omode
serve_request (fsreq_map fileid offset) whom = serve_map whom fileid offset
serve_request (fsreq_set_size fileid size) whom = serve_set_size whom fileid size
serve_request (fsreq_close fileid) whom = serve_close whom fileid
serve_request (fsreq_dirty fileid offset) whom = serve_dirty whom fileid offset
serve_request (fsreq_remove path) whom = serve_remove whom path
serve_request fsreq_sync whom = serve_sync whom
