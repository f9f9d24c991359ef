-- ===== src/Vkg/Chain.antt =====
-- src/vkg/Chain.cpp: a chain with no parent, which records operations into the command buffers of a
-- ring and submits them. The mutex of a chain is left out.
pub mod Usage
pub mod Slots
pub mod Ring
pub mod Recording
pub mod Ending
pub mod Protocol
mod Tests
use kgl.Common.{
  ℕ, zero, suc, Bool, true, false, not, ◌&&◌, if◌then◌else◌, List, [], ◌∷◌, Option, none, some,
  Result, ok, bind, from_option,
}
use kgl.Vkg.Command.{
  CommandBuffer, new_command_buffer, initialize, record_plain, record_pass, command_slot,
  at_current, stop, advance, set_active, submit,
}

-- `ChainData`. `pass` says whether the render pass is initialized, if there is one.
pub record Chain : Type 0 where
  pub cmd : CommandBuffer
  pub pass : Option Bool
  pub has_record : Bool
  pub num_cmd : ℕ
  pub current : ℕ
  pub dirty : Bool

-- `COMMAND_BUFFER_COUNT`
abbrev pub command_buffer_count : ℕ
command_buffer_count = 4

-- `ChainData()`, and `initialize` with the render pass, if there is one.
unfoldable pub new_chain : Option Bool → Chain
new_chain pass = record {
  cmd = initialize command_buffer_count new_command_buffer;
  pass = pass;
  has_record = false;
  num_cmd = 1;
  current = 0;
  dirty = false;
}

-- The loops over the command buffers: an operation, and `advance`.
unfoldable pub each :
    ℕ → (CommandBuffer → Result CommandBuffer) → CommandBuffer → Result CommandBuffer
each zero op cmd = ok cmd
each (suc n) op cmd = bind (op cmd) λ cmd'. each n op (advance cmd')

-- A loop, and `setActive( current )` after it.
unfoldable pub for_each : (CommandBuffer → Result CommandBuffer) → Chain → Result Chain
for_each op chain =
    bind (each chain.num_cmd op chain.cmd)
      λ cmd. ok (record chain { cmd = set_active chain.current cmd })

-- `ChainData::record`
unfoldable pub record_chain : Bool → Chain → Result Chain
record_chain use_render_pass chain =
    if not chain.cmd.recording
    then (if from_option (λ (initialized : Bool). initialized && use_render_pass) false chain.pass
        then for_each record_pass chain
        else for_each record_plain chain)
    else ok (record chain { cmd = set_active chain.current chain.cmd })

abbrev pub has_pass : Chain → Bool
has_pass chain = from_option (λ (initialized : Bool). true) false chain.pass

-- The loop of an operation, which leaves the chain dirty.
unfoldable pub perform : ℕ → Chain → Result Chain
perform n chain =
    bind (for_each (at_current (command_slot n)) chain)
      λ chain'. ok (record chain' { dirty = true })

-- `copy`, `memoryBarrier`, `pipelineBarrier`, and `transition` to a layout other than Undefined.
unfoldable pub operate : ℕ → Chain → Result Chain
operate n chain = bind (record_chain false chain) (perform n)

-- `drawBase`, `drawIndexedBase` and `drawInstancedBase`
unfoldable pub draw : ℕ → Chain → Result Chain
draw n chain =
    bind (record_chain true chain) λ chain'. perform n (record chain' { has_record = true })

-- `pushBase`
unfoldable pub push : ℕ → Chain → Result Chain
push n chain = bind (record_chain (has_pass chain) chain) (perform n)

-- `begin`
unfoldable pub begin : Chain → Result Chain
begin chain = record_chain (has_pass chain) chain

-- `end`
unfoldable pub end : Chain → Result Chain
end chain =
    if chain.cmd.recording
    then (bind (for_each stop chain) λ chain'. ok (record chain' { has_record = true }))
    else ok chain

-- `submit`, after its `end`.
unfoldable pub submit_ended : Chain → Result Chain
submit_ended chain =
    if chain.has_record && chain.dirty
    then (bind (submit chain.cmd)
        λ cmd. ok (record chain { cmd = cmd; current = cmd.current; dirty = false }))
    else ok chain

-- `submit`
unfoldable pub submit_chain : Chain → Result Chain
submit_chain chain = bind (end chain) submit_ended

-- `setMode`, for the mode All or another.
unfoldable pub set_mode : Bool → Chain → Chain
set_mode all chain = record chain { num_cmd = if all then command_buffer_count else 1 }

-- What a client does with a chain.
pub data Operation : Type 0 where
  begins ends submits : Operation
  operates draws pushes : ℕ → Operation
  sets_mode : Bool → Operation

unfoldable pub step : Operation → Chain → Result Chain
step begins chain = begin chain
step ends chain = end chain
step submits chain = submit_chain chain
step (operates n) chain = operate n chain
step (draws n) chain = draw n chain
step (pushes n) chain = push n chain
step (sets_mode all) chain = ok (set_mode all chain)

unfoldable pub steps : List Operation → Chain → Result Chain
steps [] chain = ok chain
steps (o ∷ os) chain = bind (step o chain) (steps os)
