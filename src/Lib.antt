-- ===== src/Lib.antt =====
-- Amun is a compiler for a small systems language, written in C++. A source file is scanned into tokens
-- (src/amun_tokenizer.cpp), parsed into an abstract syntax, type checked, and translated by LLVM. This
-- library models the parts on which the later phases stand, function by function, and proves what they
-- rely on.
--
-- The parts and their files:
-- Token: include/amun_token.hpp. `TokenKind`, `TokenSpan` and `Token` are the enum and the structs,
-- Token.Literals and Token.Operators the maps and the sets of operators.
-- Tokenizer: src/amun_tokenizer.cpp and include/amun_tokenizer.hpp. The record `Tokenizer` has the
-- fields of the class; an operation takes it and returns it, with the token or the character that the
-- method returns. Tokenizer.Chars has the classes of characters, Keyword `resolve_keyword_token_kind`
-- with the macros of include/amun_basic.hpp, Number and Radix the numbers, Text the symbols, strings
-- and characters, Blank white space and comments, and Scan the switch of `scan_next_token` and the
-- loop of `scan_all_tokens`. The other modules under Tokenizer hold proofs: View and Begun see the
-- text that is left as a list, Moves, Skips, Progress and Total follow positions, lines and columns.
-- Types: include/amun_type.hpp and src/amun_type.cpp. `AmunType` has a constructor for each struct;
-- Literal, Equality, Cast and Queries are the functions of the source, Limits the tables of the header.
-- Mangle: src/amun_name_mangle.cpp, the names of overloaded operators and of generic instances.
-- ScopedMap: include/amun_scoped_map.hpp, the variables of nested blocks.
-- AliasTable: src/amun_alias_table.cpp, the names of types, on the same lists as a scope.
-- ScopedList: include/amun_scoped_list.hpp, the deferred calls of nested blocks.
-- Ast: include/amun_ast.hpp, the nodes as mutual data types.
-- Parser: src/amun_parser.cpp, src/amun_parser_types.cpp and src/amun_parser_directives.cpp. The record
-- `Parser` has the fields of the class, with the tokenizer and what the class uses of the context
-- (include/amun_context.hpp). A parsing function is a `Parse`, from a state to an `Outcome`; its name is
-- the method's, and long methods are cut into helpers at their branches and loops. Reading has the
-- primitives, Checks the checks, warnings and the references of a struct to itself, Types the grammar of
-- types; Primary, Conditional, Directives, Operands, Postfix and Levels have the expressions from the
-- literals up to the assignments, Statements, Breaks, Loops and Control the statements, Functions,
-- Bodies, Enums and Declarations the declarations with their directives, Unit the file with those that it
-- imports or loads, and Sources src/amun_source_manager.cpp and the reading of files. Calls is
-- the recursion. Left, Ends, Rules, Leaves and the modules of Total show that parsing ends; Chains,
-- Times, Laws and SelfReferences hold further proofs.
-- Prelude: lists, texts and decimal numbers that the parts share.
--
-- How they interact: the tokenizer fills `Token`s, whose kinds the tables of Token classify; types hold
-- the token of their name, and their numbers have the kinds of tokens; the mangled names join the
-- operator literals of Token with the spelling of Types; the alias table maps names to Types. The parser
-- holds the tokenizer and scans a token whenever it reads one, resolves types in the alias table, keeps
-- the constants on the lists of ScopedMap, and builds nodes of Ast. The source manager is passed along by
-- the functions that import and load; the others see it as `resolve_source_path` of the environment.
--
-- Bounds and fuel: numbers are unbounded where the source has an `int` or a `size_t`; a source
-- shorter than 2^31 bytes reaches no bound but those of its literals: `std::stoi` throws above the
-- bounds of an `int`, and the index of a tuple's field is converted to one. A `char` is a byte. Each
-- loop of the tokenizer advances in every round, so it runs on as much fuel as bytes remain, and
-- `scan_all_tokens` on a round more than the text has bytes; the results on `scan_all_tokens` prove
-- that this is enough. `std::to_string` divides by ten, and has a round for each unit. The functions
-- of the parser run on one unit more of fuel than tokens are left, and a file on three units more
-- than it has bytes; a recursive call takes one unit, and comes behind a token that was read. Files
-- that ask for files take a fuel of their own, one unit more than there are paths under which files
-- are found.
--
-- Not modelled: the type checker; the code generator, the linker and the command runner, which call
-- LLVM and the system; the reading of options and the printing of messages. The files are a
-- parameter, `Files`: a table of contents by the paths under which they are found, and the functions
-- of `std::filesystem`. `std::stol`, `std::stoi` and `std::to_string` of integers are written out for
-- the texts that they are given; the text of a floating point limit is in the parameter
-- `Environment`. What the type checker stores in the nodes is left out.
pub mod Prelude
pub mod Token
pub mod Tokenizer
pub mod Types
pub mod Mangle
pub mod ScopedMap
pub mod AliasTable
pub mod ScopedList
pub mod Ast
pub mod Parser
