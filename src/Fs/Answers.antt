-- ===== src/Fs/Answers.antt =====
-- Every request of a client gets one answer: the handlers of fs/serv.c.
use mos_riscv.Prelude.{
  ℕ, zero, suc, ◌+◌, ◌/◌, Bool, true, false, ◌≡◌, refl, ap, Option, none, some, List, ◌∷◌, ◌==◌,
  if◌then◌else◌, Bool-cases, inl, inr,
}
use mos_riscv.Kern.Error.{Error, Ret, success, e_inval}
use mos_riscv.Fs.Server.{Io, Cmd, done, failed, stopped, block_size}
use mos_riscv.Fs.Block.{fs_sync}
use mos_riscv.Fs.File.{File, file_get_block, file_dirty, file_set_size}
use mos_riscv.Fs.Ops.{file_open, file_create, file_close, file_remove}
use mos_riscv.Fs.Sure.{IsSure, file_set_size-IsSure}
use mos_riscv.Fs.Serve.{
  Answer, Page, no_page, filefd, cached, Serving, Handler, ipc_send, resume, Opened, opened,
  refused, clear_ff, new_ff, open_from, open_alloc, open_lookup, is_creat, is_trunc, fill_ff,
  open_found, open_file, not_created, open_with, serve_open, with_open, answer_with, serve_map,
  serve_set_size, serve_close, serve_remove, serve_dirty, serve_sync, Request, fsreq_open,
  fsreq_map, fsreq_set_size, fsreq_close, fsreq_dirty, fsreq_remove, fsreq_sync, serve_request,
  maxopen, is_file_exists,
}

-- One answer, to `envid`, has joined those that were sent before, unless the server has panicked.
abbrev pub IsAnswered : ℕ → List Answer → Option Serving → Type 0
IsAnswered envid before none = Unit
IsAnswered envid before (some s) = (a : Answer) × (a.whom ≡ envid) × (s.sent ≡ a ∷ before)

module _ (envid : ℕ) (before : List Answer) where
  -- A handler that answers once when it is called.
  abbrev Answers : Handler → Type 0
  Answers k = (s : Serving) → s.sent ≡ before → IsAnswered envid before (k s)

  ipc_send-Answers : (r : Ret) (page : Page) → Answers (ipc_send envid r page)
  unfolding ipc_send
  ipc_send-Answers r page s e =
      let a : Answer = record { whom = envid; value = r; page = page } in
      (a, refl, ap (λ (l : List Answer). a ∷ l) e)

  resume-Answers :
      {A : Type 0} (r : Io A) (k : A → Handler) (h : Error → Handler)
      → ((a : A) → Answers (k a))
      → ((e : Error) → Answers (h e))
      → Answers (resume r k h)
  resume-Answers (done a fs') k h p q s e = p a (record s { fs = fs' }) e
  resume-Answers (failed err fs') k h p q s e = q err (record s { fs = fs' }) e
  resume-Answers stopped k h p q s e = tt

  fill_ff-Answers : (omode i : ℕ) (f : File) → Answers (fill_ff envid omode i f)
  unfolding fill_ff
  fill_ff-Answers omode i f s e = ipc_send-Answers success (filefd i) _ e

  resume_sure-Answers :
      {A : Type 0} (r : Io A) (k : A → Handler) (h : Error → Handler)
      → IsSure r
      → ((a : A) → Answers (k a))
      → Answers (resume r k h)
  resume_sure-Answers (done a fs') k h sure p s e = p a (record s { fs = fs' }) e
  resume_sure-Answers (failed err fs') k h sure p s e = absurd sure
  resume_sure-Answers stopped k h sure p s e = tt

  open_found-Answers : (omode i : ℕ) (f : File) → Answers (open_found envid omode i f)
  unfolding open_found
  open_found-Answers omode i f s e = elim (Bool-cases (is_trunc omode)) [
    | inl t ↦ rw t (
        resume_sure-Answers (file_set_size f 0 s.fs) _ _ (file_set_size-IsSure f 0 s.fs)
          (λ _. fill_ff-Answers omode i f) _ e)
    | inr t ↦ rw t (fill_ff-Answers omode i f _ e)
  ]

  open_file-Answers : (path : List ℕ) (omode i : ℕ) → Answers (open_file envid path omode i)
  unfolding open_file
  open_file-Answers path omode i s e =
      resume-Answers (file_open path s.fs) _ _ (open_found-Answers omode i)
        (λ err. ipc_send-Answers (some err) no_page) s e

  not_created-Answers :
      (path : List ℕ) (omode i : ℕ) (err : Error) → Answers (not_created envid path omode i err)
  unfolding not_created
  not_created-Answers path omode i err s e = elim (Bool-cases (is_file_exists err)) [
    | inl t ↦ rw t (open_file-Answers path omode i s e)
    | inr t ↦ rw t (ipc_send-Answers (some err) no_page s e)
  ]

  -- The result of `open_alloc`, which sends nothing.
  abbrev Silent : Opened → Type 0
  Silent (opened i s) = s.sent ≡ before
  Silent (refused e s) = s.sent ≡ before

  Silent-if : (b : Bool) (x y : Opened) → Silent x → Silent y → Silent (if b then x else y)
  Silent-if true x y h k = h
  Silent-if false x y h k = k

  open_from-Silent : (left i : ℕ) (s : Serving) → s.sent ≡ before → Silent (open_from left i s)
  unfolding open_from new_ff clear_ff
  open_from-Silent zero i s e = e
  open_from-Silent (suc left) i s e =
      Silent-if (s.pageref i == 0) (new_ff i s) _ (Silent-if (s.fs.grants s.fs.asked) _ _ e e)
        (Silent-if (s.pageref i == 1) (clear_ff i s) _ e (open_from-Silent left (i + 1) s e))

  open_with-IsAnswered :
      (path : List ℕ) (omode : ℕ) (o : Opened)
      → Silent o
      → IsAnswered envid before (open_with envid path omode o)
  unfolding open_with
  open_with-IsAnswered path omode (refused err s) e = ipc_send-Answers (some err) no_page s e
  open_with-IsAnswered path omode (opened i s) e = elim (Bool-cases (is_creat omode)) [
    | inl t ↦ rw t (
        resume-Answers (file_create path s.fs) _ _ (λ _. open_file-Answers path omode i)
          (not_created-Answers path omode i) s e)
    | inr t ↦ rw t (open_file-Answers path omode i s e)
  ]

  file_or_stop :
      (k : File → Handler) (o : Option File) (s : Serving)
      → s.sent ≡ before
      → ((f : File) → Answers (k f))
      → IsAnswered envid before (elim o as (λ _. Option Serving) [ none ↦ none | some f ↦ k f s ])
  file_or_stop k none s e h = tt
  file_or_stop k (some f) s e h = h f s e

  with_open-Answers :
      (k : File → Handler) (o : Option ℕ)
      → ((f : File) → Answers (k f))
      → Answers (with_open envid k o)
  unfolding with_open
  with_open-Answers k none h s e = ipc_send-Answers (some e_inval) no_page s e
  with_open-Answers k (some i) h s e = file_or_stop k (s.opentab i).o_file s e h

  answer_with-Answers : (c : Cmd (Unit {0})) → Answers (answer_with envid c)
  unfolding answer_with
  answer_with-Answers c s e =
      resume-Answers (c s.fs) _ _ (λ _. ipc_send-Answers success no_page)
        (λ err. ipc_send-Answers (some err) no_page) s e

  serve_map-Answers : (fileid offset : ℕ) → Answers (serve_map envid fileid offset)
  unfolding serve_map
  serve_map-Answers fileid offset s e =
      with_open-Answers _ (open_lookup fileid s)
        (λ f s2 e2.
          resume-Answers (file_get_block f (offset / block_size) s2.fs) _ _
            (λ b. ipc_send-Answers success (cached b)) (λ err. ipc_send-Answers (some err) no_page)
            s2 e2)
        s e

-- Whatever a client asks for, the handler sends one answer, to that client, unless the server panics.
pub serve_request-IsAnswered :
    (req : Request) (whom : ℕ) (s : Serving) → IsAnswered whom s.sent (serve_request req whom s)
unfolding serve_request serve_open open_alloc serve_set_size serve_close serve_remove serve_dirty
    serve_sync
serve_request-IsAnswered (fsreq_open path omode) whom s =
    open_with-IsAnswered whom s.sent path omode (open_from maxopen 0 s)
      (open_from-Silent whom s.sent maxopen 0 s refl)
serve_request-IsAnswered (fsreq_map fileid offset) whom s =
    serve_map-Answers whom s.sent fileid offset s refl
serve_request-IsAnswered (fsreq_set_size fileid size) whom s =
    with_open-Answers whom s.sent _ (open_lookup fileid s)
      (λ f. answer_with-Answers whom s.sent (file_set_size f size)) s refl
serve_request-IsAnswered (fsreq_close fileid) whom s =
    with_open-Answers whom s.sent _ (open_lookup fileid s)
      (λ f. answer_with-Answers whom s.sent (file_close f)) s refl
serve_request-IsAnswered (fsreq_dirty fileid offset) whom s =
    with_open-Answers whom s.sent _ (open_lookup fileid s)
      (λ f. answer_with-Answers whom s.sent (file_dirty f offset)) s refl
serve_request-IsAnswered (fsreq_remove path) whom s =
    answer_with-Answers whom s.sent (file_remove path) s refl
serve_request-IsAnswered fsreq_sync whom s = answer_with-Answers whom s.sent fs_sync s refl
