-- ===== src/Dbug/Start.antt =====
-- `init_dbug`, `uninit_dbug`, `dbug_pro` and `attach_pro`: the start and the end of a session.
use test_dbug.Common.{
  List, Option, none, some, ℤ, pos, negsuc, minus_one, is_neg, ◌==◌, if◌then◌else◌, codes, Text,
}
use test_dbug.Output.{error_line}
use test_dbug.Kernel.{Pid}
use test_dbug.Elf.Functions.{FunArr}
use test_dbug.Elf.Open.{open_funs}
use test_dbug.Session.{
  Env, done, replaced, unread, Cmd, pure, ◌>>=◌, ◌>>◌, get_dbug, set_dbug, print, call, call_void,
  call_ngx,
}
use test_dbug.Dbug.{wifexited, perror}

module _ {S : Type 0} (env : Env S) where
  -- A null pool is followed by the library, so it is a fault; a null array is stored.
  unfoldable pub init_dbug : Cmd S ℤ
  init_dbug = do
    pool ← call_ngx (λ s. env.ngx.create_pool s 4096)
    bps ← call (λ s. env.ngx.create_bps s pool 10)
    cmd ← call (λ s. env.ngx.create_cmd s pool 10)
    d ← get_dbug
    set_dbug (record d { pool = some pool; bps = bps; cmd = cmd })
    pure (pos 0)

  unfoldable pub uninit_dbug : Cmd S ℤ
  uninit_dbug = do d ← get_dbug; call_void (λ s. env.ngx.destroy_pool s d.pool); pure (pos 0)

  -- The symbols of the process; a fault of the parser is one of the session.
  unfoldable pub load_funs : Pid → Cmd S (Option FunArr)
  load_funs pid w = elim (open_funs (env.files w.os) pid) [
    | none ↦ unread w
    | some funs ↦ done funs w
  ]

  -- The end that `dbug_pro` and `attach_pro` have in common.
  unfoldable pub adopt : Pid → Cmd S ℤ
  unfolding load_funs
  adopt pid = do
    d ← get_dbug
    if wifexited d.status then pure minus_one else (do
      set_dbug (record d { pid = pid })
      funs ← load_funs pid
      set_dbug (record d { pid = pid; funs = funs })
      pure (pos 0))

  -- In the child: `execvp` comes back only if it fails, and then the child goes on as a debugger.
  unfoldable pub run_child : Option Text → List (Option Text) → Cmd S ℤ
  run_child path argv = do
    r ← call env.kernel.traceme
    if is_neg r then (do print (error_line (codes "PTRACE_TRACEME err")); pure minus_one) else (λ w.
        elim (env.kernel.execvp w.os path argv) [
          | none ↦ replaced w
          | some (r, s) ↦
              (do print (error_line (codes "exec err")); pure minus_one) (record w { os = s })
        ])

  unfoldable pub wait_status : Cmd S (Unit {0})
  wait_status = do
    d ← get_dbug
    status ← call (λ s. env.kernel.wait s d.status)
    set_dbug (record d { status = status })

  unfoldable pub dbug_pro : Option Text → List (Option Text) → Cmd S ℤ
  unfolding adopt run_child wait_status
  dbug_pro path argv = do
    pid ← call env.kernel.fork
    elim pid [
      | negsuc n ↦ do print (error_line (codes "fork err")); pure minus_one
      | pos n ↦ if n == 0 then run_child path argv else (do wait_status; adopt n)
    ]

  unfoldable pub attach_pro : Pid → Cmd S ℤ
  unfolding adopt
  attach_pro pid = do
    r ← call (λ s. env.kernel.attach s pid)
    if is_neg r then (do print (error_line (codes "ATTACH err")); pure minus_one) else (do
      d ← get_dbug
      (r, status) ← call (λ s. let (r, st, s') = env.kernel.waitpid s pid d.status in ((r, st), s'))
      set_dbug (record d { status = status })
      perror env (is_neg r) (codes "wait err")
      adopt pid)
