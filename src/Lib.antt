-- ===== src/Lib.antt =====
-- Impulse-JIT is a small language with a compiler to an intermediate representation, an
-- interpreter, a JIT compiler and a garbage collected heap. This library models the front end, from
-- the text to the syntax tree and on to the intermediate representation, its control flow graph and
-- the interpreter that runs it, the heap, and the values and instructions of the other interpreter.
--
-- The text goes through `Lexer::tokenize` (frontend/src/lexer.cpp) to a list of tokens, on which
-- `Parser::parseModule` (frontend/src/parser.cpp) builds the syntax tree
-- (frontend/include/impulse/frontend/ast.h) and a list of diagnostics. `lower_to_ir`
-- (frontend/src/lowering.cpp) makes instructions of it, which `interpret_function`
-- (ir/src/interpreter.cpp) runs and `build_control_flow_graph` (ir/src/cfg.cpp) cuts into blocks. The virtual machine
-- (runtime/src/runtime.cpp) gives the values that a program holds as roots to the collector
-- (runtime/src/gc_heap.cpp), and runs it when the bytes that are allocated reach a threshold.
--
-- Base: names of the libraries, list functions over the native numbers, Boolean tests, and `Run`, the
--   result of code that can return, dereference a bad pointer (`fault`) or run out of fuel.
-- Token: tokens, classes of characters, keywords. Lexer: the class `Lexer`; its state is the text
--   behind the cursor with the line and the column. A function that appends a token to the vector
--   gives that token. Lexer/Spells is the lexical grammar, stated apart from the code; Lexer/Moves is
--   how the cursor moves; Lexer/Trivia, Strings, Numbers and Symbols set each kind of lexeme against
--   the grammar, and Lexer/Sound puts them together. The literals of docs/spec/grammar.md are in
--   Lexer/Documented, by Lexer/Literals on texts that are one literal; where they are not those of the
--   lexer, Lexer/Spells goes by the code.
-- Ast: the structs of ast.h. Parser: the class `Parser`; its state is the token before the cursor,
--   the tokens from it on and the diagnostics. A function of the class is a function of the same
--   name in small letters, which gives its result and the state behind it; a null result is `none`.
--   Parser/Expr has the expressions, Binding the bindings and the recovery from errors, Statement the
--   statements, Names paths, imports and parameters, Declaration structs and interfaces, Module
--   functions, declarations and `parseModule`. A long function is cut where its parts begin, as
--   `parseStatement` at its keywords. Parser/Ends and its children, and Parser/Expr/Total with
--   Parser/Expr/Steps, are about how loops end; Parser/Expr/Fault is about the null dereference,
--   Parser/Cursor about the end of the tokens.
-- Ir: the structs of ir/include/impulse/ir/ir.h and `FunctionBuilder` (ir/src/builder.cpp); Ir/Decimal
--   is `std::to_string`. Floats: what the interpreters do with numbers, with the record of what the
--   processor and `std::stod` do, which is an argument everywhere.
-- Constants: `evaluateNumericExpression` and `printExpression` (frontend/src/expression_eval.cpp), with
--   Constants/Values on the values of operations.
-- Lowering: expressions and statements to instructions, and Lowering/Module `lower_to_ir`. A function
--   that appends to `instructions` gives what it appends; the counter of labels and the scopes are a
--   state. Lowering/Meaning evaluates the syntax tree without any instructions. Lowering/Labels and its
--   children are about labels, Scopes about drops, Places about where code stands, ExpressionCode,
--   Rounds, Loops, Clauses and Simulation about the machine on the code, Correct about whole functions,
--   ConstantCode and Initializers about bindings, Remainders about `%`.
-- Stack: `interpret_binding`, and Stack/Machine `interpret_function`, whose state is the program
--   counter, the operand stack and the locals; Stack/Machine/Runs puts runs together.
-- Cfg: `build_control_flow_graph`; Cfg/Leaders is about the leaders, Partition about the blocks, Edges
--   and Range about their successors and predecessors.
-- Heap: values, objects and `GcHeap`. The list of objects that the C++ threads through `next` is a
--   list of addresses with their objects, and the address that `new` returns is an argument, as are
--   the sizes of `GcObject` and `Value`. Heap/Store is the list as a store, Heap/Mark the marking
--   loop, Heap/Sweep sweeping, Heap/Collect a whole collection, Heap/Alloc allocation, Heap/Roots the
--   part of `Vm` that gathers the roots. A frame of the C++ points to the locals and the stack of its
--   function; here it has them as they are when the collector runs, which changes none of them.
-- Interp: `SsaInterpreter` (runtime/include/impulse/runtime/ssa_interpreter.h and
--   runtime/src/ssa_interpreter.cpp), where it keeps its values, with `handle_array_make` and
--   `handle_assign`. Interp/Store is about looking up what was stored, Interp/Dangling about the
--   values that the collector does not see, Interp/Arrays has the other array instructions,
--   Interp/Scalars those on numbers and strings, beside Stack in Interp/Scalars/Agree, Interp/Phi the
--   phi nodes, Interp/Flow the branches and the return, Interp/Builtins the builtin functions on strings,
--   Interp/Builtins/Collections those on arrays and numbers. What the processor does with doubles is an
--   argument, in Interp and Interp/Arrays `to_index` too.
-- Ssa: operations, operators, values, phi nodes and blocks (ir/include/impulse/ir/ssa.h).
--
-- Fuel: the lexer gets a unit for each byte and one more. An expression gets six for each token left
-- and five more, a statement four and one, another loop one and one: a round of a loop is to consume
-- a token, and between two tokens a few calls follow each other. The marking loop gets a unit for
-- each field of the heap and two more: an object's fields are pushed when it is marked. The machine of
-- Stack/Machine gets a unit for each instruction that it runs, and the meaning of a body one for each
-- round of a loop; both have their fuel as an argument, since a program may run forever.
--
-- Numbers: the counters of the heap wrap at 2 ^ 64, as `size_t` does. Lines and columns are
-- natural numbers, since a text of 2 ^ 64 bytes is not in any memory, and so is the counter of labels,
-- an `int` that starts anew with each module: that a module has 2 ^ 31 labels is left out. A double is its
-- 64 bits, on which nothing here computes.
--
-- Not modelled: semantic analysis, the construction of the SSA form, the calls and the loop of its
-- interpreter and the JIT compiler, which are left for later; printers, tools and tests, which are
-- input and output.
pub mod Ast
pub mod Base
pub mod Cfg
pub mod Constants
pub mod Floats
pub mod Heap
pub mod Interp
pub mod Ir
pub mod Lexer
pub mod Lowering
pub mod Parser
pub mod Ssa
pub mod Stack
pub mod Token
