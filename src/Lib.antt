-- ===== src/Lib.antt =====
-- A model of the JSON Schema validator of this repository, with theorems about it.
--
-- A schema is compiled into subschemas, each a list of evaluators, one for each keyword. A validation
-- makes a context (`runCtx` of eval.go) and walks the subschemas over the instance: an evaluator
-- reads the instance, descends into other subschemas through the context, and reports errors and
-- annotations to it. The context bounds the walk: a depth limit, a reference-depth limit, a cap on
-- the errors held, and a budget of evaluations that errors are charged against by their size.
--
-- Prelude: byte strings, UTF-8 widths, integers, lists and tests over the native numbers.
-- Value: the instance values of encoding/json.
-- Num, num.go: exact decimals. Num/Digits has the arithmetic on digit strings, Num/Decimal the
-- struct and its exponents, Num/Parse the parser, Num/Compare cmp, equal and key, Num/Divide
-- the divisor of multipleOf and digitsDivisible. A big.Int is a number. The theorems on them are in
-- Num/Exact, Num/Carry, Num/Order, Num/Factors, Num/Twos, Num/Multiples, Num/Divisible
-- and Num/Divisor.
-- Eval/Types: subschema, Schema, runCtx, the options and the evaluators of eval_*.go. A pointer to
-- a subschema is a number that the schema resolves, so schemas may be cyclic.
-- Eval/Paths: instanceLocation, keywordPath, anchorPath (eval.go), escapePointerToken (compile.go),
-- unescapePointerToken (ref.go); Eval/Escapes has their round trip.
-- Eval/Report: addError, addErrorWithCause, addCausesError, chargeErrors, refundErrors, shouldStop,
-- checkMaxKeyCount and appendAnnotationEntry (eval.go).
-- Eval/Scope: annoScope and the marks on it (eval.go), recordKeys, recordPrefix, recordAllItems
-- (eval_applicator.go).
-- Eval/Walk: evaluate, evaluateAt, evaluateChild, evaluateItem, evaluateRef and evaluateBranch.
-- Eval/Combine, Eval/Objects, Eval/Arrays: the eval methods of eval_applicator.go,
-- eval_unevaluated.go and eval_ref.go. Eval/Equal, Eval/Asserts, Eval/Unique: those of
-- eval_validation.go and eval_annotation.go.
-- Eval/Run: run, newRunCtx, setEvalLimitCount (eval.go) and validateWithOptions (validate.go).
-- Eval/Ledger: what every step of the walk keeps of the context, keyword by keyword, and
-- Eval/Guarantees: what follows for a run and for a whole validation. Eval/Negation: the verdict
-- of `not`.
--
-- Formats, formats.go and punycode.go: Formats/Types has FormatError and the packages that are called,
-- Formats/Times, Durations, Pointers, Uris, Templates, Hosts, IdnHosts and Emails the validators,
-- Formats/Punycode the codec, whose runes Formats/Runes is about, and Formats/Builtin the table of
-- names. Formats/Encoding is about UTF-8 written and read, Formats/Clocks about isFullTime, Formats/Grammar about the time portion of a duration,
-- Formats/Rounds about the fuel of URI templates. Formats/Failures and Reports
-- are about their errors, Formats/Ascii, Inclusions and Names about formats that accept what another
-- accepts.
-- Refs, ref.go: Refs/Pointer has jsonPointer and resolveFragment, Refs/Tokens the pointers that
-- tokens print to, Refs/Locations the way from an instance location back to its value.
--
-- Decode, fastjson.go: Decode/Scan has the scanners, Decode/Fast the decoder with its stacks. A
-- position is the text that follows it, and the stacks are lists with the top first. Decode/Kept,
-- Loops and Counted say what a decoding leaves behind, Decode/Shorter and Fed that it ends.
-- Keywords, draft.go and keywords.go: Keywords/Drafts the drafts and their URLs, Keywords/Registry the
-- vocabularies and LookupKeyword and KeywordsForDraft, which Keywords/Lookup compares.
-- Output, output.go: Output/Flat the flat output, Output/Tree the nested one, Output/Leaves the errors
-- in them, Output/Validity the validity of groups.
--
-- The keywords take the recursive call as an argument, and `run` ties the knot by recursion on fuel:
-- `validate` gives `max_validation_depth + 3`, as each call of `run` that recurses is one level
-- deeper and the depth limit stops the walk. The flag `exhausted` of the model's context tells
-- that fuel was missing, and `panicked` that bits.Div64 would have panicked.
-- A Go map is a list of its entries, in any order, as the source sorts the keys before it walks them.
-- Counts of the source (int) are numbers without bound, and the digits of a decimal are a byte
-- string. Loops of the formats that move by more than one byte count the bytes to pass over or run on
-- the length of the text as fuel. time.Parse, url.Parse, netip.ParseAddr, the Unicode tables, the
-- quoting of fmt, the escaping of url fragments and MatchString of a compiled regexp are
-- parameters. The count of the values of an instance, which sets the default budget, is an argument.
--
-- Not modelled: the compiler (compile.go), the loading and indexing of documents (ref.go), the
-- translation of regular expressions (regex.go), which the format regex takes as a parameter, the
-- evaluators of format and content, $dynamicRef and $recursiveRef, the pruning of the detailed
-- output and the encoding of outputs, the loaders, the generators and the command line. With
-- contentSchema goes growEvalLimit (eval.go), which raises a default budget before decoded content is
-- validated: in the model a default budget is the one that newRunCtx sets, while a budget that the
-- options or the compiled schema set is never raised, in the source neither.
pub mod Prelude
pub mod Value
pub mod Num
pub mod Eval
pub mod Formats
pub mod Refs
pub mod Decode
pub mod Keywords
pub mod Output
