-- ===== src/Lib.antt =====
-- A model of the L2 bootstrap compiler (bootstrap/*.c) and proofs about it.
--
-- The compiler reads L2 source into fragments (nested lists of tokens), builds expressions from
-- them, infers signatures by unification, analyses and lays out the expressions, generates x86-64
-- instructions, assembles them into an ELF object, and loads that object to run macros.
--
-- The files, and the code that they model:
--   Interface    bootstrap/x86_64_linux_interface.c: strcmp (as the test `streq`), ulong_to_str,
--                pad_size. isspace stands in Lexer.
--   Result       bootstrap/errors.c: `Error` has a constructor for each throw_ function. A long jump
--                to the handler is the outcome `thrown`; `undefined` is what C leaves undefined;
--                `out_of_fuel` is an artefact of fuel, and has no counterpart.
--   Cells        bootstrap/list.c: cells in memory, and lst, prepend, length, reverse, map and concat.
--                The other files have lists of the model for the lists of the program.
--   Fragment     the fragments of bootstrap/lexer.c (`var`, `token`, `group` for the three kinds of
--                list), is_var, is_token, to_string and print_fragment. The empty list is `group nil`.
--                A C string is the list of the characters before its zero.
--   Lexer        bootstrap/lexer.c: the table of characters and read_whitespace, read_token,
--                read_list, read_fragment1, read_fragment2, read_fragment. The cursor `*pos` in a
--                buffer is the list of the characters from it on. A loop that appends to a list is a
--                function of its own that returns the elements.
--   Unify        evaluate, recursive_evaluate, token_equals of bootstrap/lexer.c and occurs_in,
--                unify_var, unify of bootstrap/analysis.c. The cells of the variables are a store,
--                which the functions pass on. Below it: `Models` and `Narrow` say what a store
--                means (equations, solved by substitutions), `Evals` what a complete value is,
--                and `Total` that unification ends.
--   Expression   bootstrap/expressions.c: the node types, the make_ functions and build_expression.
--                The region is a counter of addresses, and every node carries its own.
--   Assembler    bootstrap/x86_64_assembler.c: mem_write, write_mr_instr, write_o_instr,
--                write_static_value, assemble, with the instruction set of
--                bootstrap/x86_64_generator.c and the relocations of bootstrap/elf.c. The place of a
--                symbol in the symbol table is a parameter, `index`. `Decode` is an independent
--                decoder, after the processor's manual.
--   Elf          measure_strtab, measure_symtab, max_elf_size and write_elf of
--                bootstrap/x86_64_assembler.c with the structures of bootstrap/elf.c. A function
--                gives the binding_aug behind an address, another the name of a label's symbol, and
--                `garbage` the bytes of a buffer that nothing assigned. Sizes that C keeps in an
--                `int` are not cut to 32 bits.
--   Region       create_region and region_alloc of bootstrap/x86_64_linux_interface.c. `mmap` is a
--                parameter, and `FreshPages` what is assumed of the area that it gives. The code
--                does not test for a failure of mmap. Its integrity check, which is commented out
--                where it would be called, and destroy_region are left out.
--   Frames       layout_frames of bootstrap/x86_64_generator.c. The fields of the bindings that it
--                assigns are passed on; those that earlier passes assigned (binding_aug of a
--                symbol, temp_storage_bndg, contains_flag, escapes) are functions of the node.
--                The offsets are ints, and wrap at 32 bits.
--   Generator    the rest of bootstrap/x86_64_generator.c. The list of instructions is passed on with
--                the next free address, which make_binding_aug takes; `Passes` holds the fields that
--                earlier passes assigned. `Control` has the sgenerate functions, with the code of an
--                expression's parts as functions, and `Program` generate_expressions and
--                generate_program. `Height` follows the stack pointer in the order of a text, and
--                follows no jump. An argument
--                offset that C keeps in an `int` is not cut to 32 bits. A node whose type is out of
--                range for a field (`parameters` of a symbol) has the empty list.
--   Loader       bootstrap/x86_64_object.c. The memory is a function from addresses to bytes, and a
--                `Section` holds what `Object` has for one index. Below it: `Bindings` has the
--                passes over symbols, and `Read` read_object and load, where `place` gives the
--                addresses of segments. `Jobs` is the abstract view of relocations, the numbers and
--                where they go, `Resolved` says when they are defined, and `Again` relocates
--                a loaded object once more. Reading out of the file, a missing symbol or section, and a table
--                whose entries have size 0 are `undefined`; a count that C keeps in an `int` is not
--                cut to 32 bits.
--   Containment  containment_analysis of bootstrap/analysis.c; what it assigns to nodes is a list.
--                `Flags` says which evaluations an expression has.
--   Visit        visit_expressions and vfind_multiple_definitions of bootstrap/analysis.c. A visitor
--                returns the expression that replaces the one it is given.
--   Link         link_symbols and assign_binding of bootstrap/analysis.c. The lists that the function
--                gets by value are arguments, and what it assigns is a list, by a symbol's address.
--                Each symbol of an expression has its own address, so `bound` does not change.
--   Escape       escape_analysis of bootstrap/analysis.c. What it assigns to nodes are lists; the node
--                behind a symbol's binding is a function of the symbol's address.
--   Tests        the results at concrete inputs.
--
-- Fuel: the reader's functions take a unit of fuel for each call, and `enough_fuel`, six units for
-- each character and six more, is enough for any input. The functions of Unify take fuel too;
-- `Converges` says that with any fuel above a bound a run returns one value.
-- The loops over cells take a unit of fuel for each cell and one more.
--
-- Numbers: an `unsigned long` wraps at `2 ^ 64` where the code can overflow; a `char` is its code.
--
-- Not modelled: system calls and the assembly files, since they are input and output; the other
-- passes of bootstrap/analysis.c (dependencies and their components, the equations of type inference,
-- the expansion of macros), and the driver bootstrap/compile.c, which are not translated yet; the
-- compiler's own L2 sources, which are another language.
pub mod Prelude
pub mod Interface
pub mod Fragment
pub mod Fuel
pub mod Result
pub mod Cells
pub mod Lexer
pub mod Unify
pub mod Expression
pub mod Assembler
pub mod Elf
pub mod Region
pub mod Frames
pub mod Containment
pub mod Visit
pub mod Link
pub mod Escape
pub mod Generator
pub mod Loader
pub mod Tests
