-- ===== src/Instance/Api.antt =====
-- instance_bridge.cpp, lines 99-166: the three exported calls. The C++ runtime behind them, with
-- its scheduler, is a parameter. A handle is an address, and 0 is `nullptr`.
use cjcj_runtime.Base.{
  ℕ, suc, ◌*◌, ◌%◌, ◌^◌, ◌≡◌, ◌≢◌, ◌<◌, refl, Bool, Option, none, some, ◌==◌, if◌then◌else◌, not,
  true, false, arith, ◌⊎◌, inl, inr, Bool-cases,
}

-- `CjcjRtInstanceParam` and, with the same layout, `ConcurrencyParam`; the sizes are in KB.
pub record InstanceParam : Type 0 where
  pub th_stack_size : ℕ
  pub co_stack_size : ℕ
  pub processor_num : ℕ

-- The initialised runtime: `GetConcurrencyParam`, `CheckSubSchedulerValid`,
-- `RunCJTaskToSchedule` and `MRT_StopSubScheduler`.
pub record Runtime : Type 0 where
  pub concurrency_param : InstanceParam
  pub is_valid_sub_scheduler : ℕ → Bool
  pub run_task_to_schedule : ℕ → ℕ → ℕ → ℕ
  pub stop_sub_scheduler : ℕ → ℕ

-- A field of the caller's parameters, or the default where it is zero.
abbrev pub or_default : ℕ → ℕ → ℕ
or_default value default = if value == 0 then default else value

-- The parameters of the new scheduler. The number of processors is 1 by default, whatever the
-- runtime's own number is.
unfoldable pub co_param : Option InstanceParam → InstanceParam → InstanceParam
co_param none d = record {
  th_stack_size = d.th_stack_size;
  co_stack_size = d.co_stack_size;
  processor_num = 1;
}
co_param (some p) d = record {
  th_stack_size = or_default p.th_stack_size d.th_stack_size;
  co_stack_size = or_default p.co_stack_size d.co_stack_size;
  processor_num = or_default p.processor_num 1;
}

abbrev pub kb : ℕ
kb = 1024

-- What the new thread is started with: the number in its name, the size of its stack in bytes and
-- the scheduler's parameters.
pub record Launch : Type 0 where
  pub name_id : ℕ
  pub stack_size : ℕ
  pub param : InstanceParam

-- `CJCJ_MRT_InstanceNew` up to the creation of the thread, with its `static int id`. `none`: there
-- is no runtime, and the call returns a null handle.
unfoldable pub launch : Option Runtime → Option InstanceParam → ℕ → Option Launch × ℕ
unfolding co_param
launch none param id = (none, id)
launch (some r) param id =
    let p = co_param param r.concurrency_param in
    (some (record { name_id = id; stack_size = p.th_stack_size * kb % 2 ^ 64; param = p }), suc id)

unfoldable pub instance_run_task : Option Runtime → ℕ → ℕ → ℕ → ℕ
instance_run_task none handle func args = 0
instance_run_task (some r) handle func args =
    if handle == 0
    then 0
    else if not (r.is_valid_sub_scheduler handle)
    then 0
    else r.run_task_to_schedule func args handle

unfoldable pub instance_stop : Option Runtime → ℕ → ℕ
instance_stop none handle = 1
instance_stop (some r) handle = if handle == 0 then 1 else r.stop_sub_scheduler handle

-- Each size that the caller gave is taken over.
abbrev pub Honours : Option InstanceParam → InstanceParam → Type 0
Honours none l = Unit {0}
Honours (some p) l =
    ((p.th_stack_size ≡ 0) ⊎ (l.th_stack_size ≡ p.th_stack_size))
    × ((p.co_stack_size ≡ 0) ⊎ (l.co_stack_size ≡ p.co_stack_size))
    × ((p.processor_num ≡ 0) ⊎ (l.processor_num ≡ p.processor_num))

co_param-Honours :
    (param : Option InstanceParam) (d : InstanceParam) → Honours param (co_param param d)
unfolding co_param
co_param-Honours none d = tt
co_param-Honours (some p) d = ground arith

co_param_sizes :
    (param : Option InstanceParam) (d : InstanceParam)
    → 0 < d.th_stack_size
    → 0 < d.co_stack_size
    → (0 < (co_param param d).th_stack_size)
      × (0 < (co_param param d).co_stack_size)
      × (0 < (co_param param d).processor_num)
unfolding co_param
co_param_sizes none d th co = (th, co, omega arith)
co_param_sizes (some p) d th co = ground arith

-- With a runtime whose default stacks are not empty, every new scheduler has stacks that are not
-- empty and a processor, its thread gets the number of KB asked for in bytes, modulo 2 ^ 64, and
-- each size that the caller gave is taken over.
pub launch-param :
    (r : Runtime) (param : Option InstanceParam) (id : ℕ)
    → 0 < r.concurrency_param.th_stack_size
    → 0 < r.concurrency_param.co_stack_size
    → (l : Launch) × ((launch (some r) param id).0 ≡ some l)
      × (l.stack_size ≡ l.param.th_stack_size * kb % 2 ^ 64)
      × (0 < l.param.th_stack_size)
      × (0 < l.param.co_stack_size)
      × (0 < l.param.processor_num)
      × Honours param l.param
unfolding launch
launch-param r param id th co =
    let (a, b, c) = co_param_sizes param r.concurrency_param th co in
    (_, refl, refl, a, b, c, co_param-Honours param r.concurrency_param)

-- The call returns null, or the handle is not null and the runtime knows its scheduler. A stop
-- fails with 1, or there are a runtime and a handle.
pub instance_guards :
    (r : Option Runtime) (handle func args : ℕ)
    → ((instance_run_task r handle func args ≡ 0)
        ⊎ ((handle ≢ 0)
            × ((q : Runtime) × (r ≡ some q) × (q.is_valid_sub_scheduler handle ≡ true))))
      × ((instance_stop r handle ≡ 1) ⊎ ((handle ≢ 0) × (r ≢ none)))
unfolding instance_run_task instance_stop
instance_guards none handle func args = (inl refl, inl refl)
instance_guards (some q) handle func args = elim (Bool-cases (handle == 0)) [
  | inl null ↦ (inl (rw null refl), inl (rw null refl))
  | inr given ↦ let there : handle ≢ 0 = ground arith in (valid there given, inr (there, λ e. cc))
]
  where
    valid :
        handle ≢ 0
        → (handle == 0) ≡ false
        → (instance_run_task (some q) handle func args ≡ 0)
          ⊎ ((handle ≢ 0)
              × ((s : Runtime) × (◌≡◌ {A = Option Runtime} (some q) (some s))
                  × (s.is_valid_sub_scheduler handle ≡ true)))
    valid there given = elim (Bool-cases (q.is_valid_sub_scheduler handle)) [
      | inl known ↦ inr (there, (q, refl, known))
      | inr unknown ↦ inl (rw (given, unknown) refl)
    ]
