-- ===== src/Vm/Decode/Fetch.antt =====
-- `fetch_instruction` stays within the memory.
use bitcode.Base.{◌+◌, ◌<◌, ◌≤◌, ◌≡◌, ◌⊎◌, Bytes, ok, arith}
use bitcode.Vm.Decode.{fetch_instruction}
use bitcode.Vm.Layout.{
  memory_limit, instruction_size, mem_size, vm_exit_success, vm_err_pc_out_of_bounds,
}
use bitcode.Vm.State.{VmContext, window}

-- For every context, `fetch_instruction` is defined: up to `memory_limit` it reads the eight
-- bytes at `pc`, which lie within the memory, and moves `pc` on by 8 without wrapping; past
-- `memory_limit` it reports `vm_err_pc_out_of_bounds` and changes neither context nor buffer.
pub fetch_instruction_total :
    (ctx : VmContext) (out : Bytes)
    → ((ctx.pc ≤ memory_limit)
        × (ctx.pc + instruction_size ≤ mem_size)
        × (fetch_instruction ctx out
            ≡ ok (
              record ctx { pc = ctx.pc + instruction_size },
              window ctx.memory ctx.pc instruction_size,
              vm_exit_success,
            )))
      ⊎ ((memory_limit < ctx.pc)
          × (fetch_instruction ctx out ≡ ok (ctx, out, vm_err_pc_out_of_bounds)))
unfolding fetch_instruction
fetch_instruction_total ctx out = ground arith
