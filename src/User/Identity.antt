-- ===== src/User/Identity.antt =====
-- The sixteen identity calls as reads and writes of eight independent fields.
use carrotos.Base.{
  ℕ, ◌≡◌, refl, ◌∙◌, Bool, ◌&&◌, some, arith, ◌==◌, if◌then◌else◌, Bool-cases, inl, inr,
}
use carrotos.Process.{Process, Processes}
use carrotos.Process.Table.{process_at, put_process, process_at-lt, process_at-put_process}
use carrotos.User.{
  get_field, set_field, sys_getuid, sys_getgid, sys_geteuid, sys_getegid, sys_getreuid,
  sys_getregid, sys_getresuid, sys_getresgid, sys_setuid, sys_setgid, sys_seteuid, sys_setegid,
  sys_setreuid, sys_setregid, sys_setresuid, sys_setresgid,
}

-- The eight identities of a process.
pub data Identity : Type 0 where
  real_user real_group effective_user effective_group re_user re_group res_user res_group : Identity

number : Identity → ℕ
number real_user = 0
number real_group = 1
number effective_user = 2
number effective_group = 3
number re_user = 4
number re_group = 5
number res_user = 6
number res_group = 7

unfoldable pub same : Identity → Identity → Bool
unfolding number
same a b = number a == number b

-- The call that reads an identity, and the one that means to set it.
unfoldable pub getter : Identity → Processes → ℕ → ℕ
getter real_user = sys_getuid
getter real_group = sys_getgid
getter effective_user = sys_geteuid
getter effective_group = sys_getegid
getter re_user = sys_getreuid
getter re_group = sys_getregid
getter res_user = sys_getresuid
getter res_group = sys_getresgid

unfoldable pub setter : Identity → Processes → ℕ → ℕ → ℕ × Processes
setter real_user = sys_setuid
setter real_group = sys_setgid
setter effective_user = sys_seteuid
setter effective_group = sys_setegid
setter re_user = sys_setreuid
setter re_group = sys_setregid
setter res_user = sys_setresuid
setter res_group = sys_setresgid

-- The field that a call reads, and the one that a call changes.
field : Identity → Process → ℕ
field real_user p = p.uid
field real_group p = p.gid
field effective_user p = p.euid
field effective_group p = p.egid
field re_user p = p.reuid
field re_group p = p.regid
field res_user p = p.resuid
field res_group p = p.resgid

change : Identity → ℕ → Process → Process
change real_user v p = record p { uid = v }
change real_group v p = record p { gid = v }
change effective_user v p = record p { euid = v }
change effective_group v p = record p { egid = v }
change re_user v p = record p { reuid = v }
change re_group v p = record p { regid = v }
change res_user v p = record p { resuid = v }
change res_group v p = record p { resgid = v }

field-change :
    (a b : Identity) (v : ℕ) (p : Process)
    → field b (change a v p) ≡ (if same a b then v else field b p)
unfolding field change same
field-change real_user real_user v p = refl
field-change real_user _ v p = refl
field-change real_group real_user v p = refl
field-change real_group _ v p = refl
field-change effective_user real_user v p = refl
field-change effective_user _ v p = refl
field-change effective_group real_user v p = refl
field-change effective_group _ v p = refl
field-change re_user real_user v p = refl
field-change re_user _ v p = refl
field-change re_group real_user v p = refl
field-change re_group _ v p = refl
field-change res_user real_user v p = refl
field-change res_user _ v p = refl
field-change res_group real_user v p = refl
field-change res_group _ v p = refl

-- Where a setting call stores: the call for the real group stores into the real user.
unfoldable pub stored_in : Identity → Identity
stored_in real_group = real_user
stored_in a = a

getter-field :
    (a : Identity) (ps : Processes) (pid : ℕ) → getter a ps pid ≡ get_field (field a) ps pid
unfolding getter field get_field sys_getuid sys_getgid sys_geteuid sys_getegid sys_getreuid
    sys_getregid sys_getresuid sys_getresgid
getter-field real_user ps pid = refl
getter-field _ ps pid = refl

setter-change :
    (a : Identity) (ps : Processes) (pid v : ℕ)
    → setter a ps pid v ≡ set_field (change (stored_in a) v) ps pid
unfolding setter change stored_in set_field sys_setuid sys_setgid sys_seteuid sys_setegid
    sys_setreuid sys_setregid sys_setresuid sys_setresgid
setter-change real_user ps pid v = refl
setter-change _ ps pid v = refl

get_field-some :
    (g : Process → ℕ) (ps : Processes) (pid : ℕ) {p : Process}
    → process_at ps pid ≡ some p
    → get_field g ps pid ≡ g p
unfolding get_field
get_field-some g ps pid h = rw (h, get_field)

get_field-at :
    (g : Process → ℕ) (ps ps' : Processes) (pid : ℕ)
    → process_at ps pid ≡ process_at ps' pid
    → get_field g ps pid ≡ get_field g ps' pid
unfolding get_field
get_field-at g ps ps' pid h = rw (h, get_field)

-- A change seen through a field.
module _ (g : Process → ℕ) (h : Process → Process) (ps : Processes) (pid : ℕ) {p : Process}
    (at : process_at ps pid ≡ some p) where
  set_field-some : set_field h ps pid ≡ (0, put_process ps pid (h p))
  unfolding set_field
  set_field-some = rw (at, set_field)

  get_field-put_process :
      (i : ℕ)
      → get_field g (put_process ps pid (h p)) i ≡ (if i == pid then g (h p) else get_field g ps i)
  get_field-put_process i =
      let stored = process_at-put_process ps pid (h p) i (process_at-lt ps pid at) in
      elim (Bool-cases (i == pid)) [
        | inl e ↦
            let here : process_at (put_process ps pid (h p)) i ≡ some (h p) = rw (stored, e) in
            rw e (get_field-some g (put_process ps pid (h p)) i here)
        | inr e ↦
            let there : process_at (put_process ps pid (h p)) i ≡ process_at ps i =
              rw (stored, e) in
            rw e (get_field-at g (put_process ps pid (h p)) ps i there)
      ]

-- A call that sets an identity of an existing process returns 0, and afterwards each of the eight
-- reading calls, made for any process, returns what it did before, but for the identity of that
-- process that was stored, which is the value set. Every call stores the identity that it is named
-- for, but `sys_setgid` stores the real user's.
pub getter-setter :
    (a b : Identity) (ps : Processes) (pid v i : ℕ) {p : Process}
    → process_at ps pid ≡ some p
    → ((setter a ps pid v).0 ≡ 0)
      × (getter b (setter a ps pid v).1 i
          ≡ (if i == pid && same (stored_in a) b then v else getter b ps i))
getter-setter a b ps pid v i {p} at =
    let h = change (stored_in a) v in
    let stored : setter a ps pid v ≡ (0, put_process ps pid (h p)) =
      setter-change a ps pid v ∙ set_field-some (field b) h ps pid at in
    let after : getter b (put_process ps pid (h p)) i
        ≡ (if i == pid then field b (h p) else get_field (field b) ps i) =
      getter-field b (put_process ps pid (h p)) i ∙ get_field-put_process (field b) h ps pid at i in
    rw stored (
      refl,
      after ∙ elim (Bool-cases (i == pid)) [
        | inl e ↦
            let here : i ≡ pid = ground arith in
            rw (e, here, getter-field b ps pid, get_field-some (field b) ps pid at)
              (field-change (stored_in a) b v p)
        | inr e ↦ rw (e, getter-field b ps i)
      ],
    )
