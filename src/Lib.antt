-- ===== src/Lib.antt =====
-- A model of the keyring library (a Go package that keeps secrets in one of several system stores),
-- with the theorems that make its parts correct.
--
-- How the program is put together, and which file models which part:
--
-- - keyring.go, config.go, prompt.go: an item, the `Keyring` interface, the names of the backends
--   and the configuration are in Api; the error values, wrapping and `errors.Is` in Errors.
--   `AvailableBackends` and `Open` are in Open, which takes the table of supported backends as a
--   parameter, since a build fills it: Builds has the `init` functions and the build constraints. What
--   the interface promises is the record `MeetsContract` of Contract: the results and the effects of
--   each operation on a view from keys to items; `MeetsContractUpTo` is the same where a backend takes
--   several keys for one.
-- - array.go: the keyring in memory is in Array. Its nil map is `none`.
-- - wincred.go: the Windows credential backend is in WinCred. The credential manager behind
--   github.com/danieljoos/wincred is the record `Credentials`, and `IsManager` is what is assumed of
--   it, which looks at no case in the names of credentials; what case is, is a parameter.
-- - winhello.go and winhello/: WinHello is the adapter, WinHello/Backend the backend
--   (winhello/backend.go), whose cached key is part of the state, WinHello/Envelope, Crypto and Store
--   the files of those names, WinHello/Passport passport.go, its module Wrap wrap.go, WinHello/PassportName
--   passport_name.go, WinHello/NCrypt ncrypt_error.go, WinHello/Window hwnd.go. NCrypt is a record
--   of calls; WinHello/NCrypt/Trace keeps the history of its calls, with an environment that answers
--   each call as it likes. What has to work for items to be kept is the record of WinHello/Working.
--   WinHello/Buffers is crypto.go once more, with the buffers that hold a content key.
-- - keyctl.go: the kernel keyring backend is in KeyCtl, the masks of permissions in its module
--   Permissions, what is read from bytes of the kernel in Description, the kernel calls in Syscalls, as
--   a record. `keyctlRead` calls the kernel again as long as the key grows, so the model gives it a
--   number of calls, after which it returns an error of the model's own. How the machine orders the
--   bytes of a number is a parameter.
-- - opcommon.go, opstandard.go: OnePassword/Base has titles and tokens, OnePassword/Standard the
--   operations over the client of the 1Password SDK, which is the record `Client` of
--   OnePassword/Sdk. That a call's time is over is one of its errors.
-- - kwallet.go: the KWallet backend is in KWallet, its D-Bus calls and the type assertions on their
--   answers in KWallet/Calls. The bus is a function from a method and its arguments to an answer. A
--   failed assertion is a panic, which is an error value here. Stored has what is assumed of
--   encoding/json at an item.
-- - secretservice.go: the Secret Service backend is in SecretService, the decoding of collection paths
--   in SecretService/Paths. github.com/byteness/go-libsecret is the record `Service` of
--   SecretService/Service. The fields that methods change stand beside the world, as an `Object` of
--   Exec/Object.
-- - file.go, tilde.go and the prompts of prompt.go: the file backend is in File, ExpandTilde in
--   File/Tilde, the prompts in Prompts. What the program calls of the operating system, of the path
--   packages, of percent and of jose2go are the records of File/System.
-- - opconnect.go, opdesktop.go, opsrvaccount.go: OnePassword/Settings has what they take from the
--   configuration and the environment, OnePassword/Connect the Connect backend, with what is assumed
--   of a server in OnePassword/Connect/Server, and OnePassword/Desktop and OnePassword/SrvAccount the
--   other two, whose field for the client, and the operations that fill it, are in OnePassword/Held.
--   Traces has callers that call one operation after the other.
-- - pass.go, passage.go: the two files are the same but for four texts, so that Pass models both over a
--   `Flavor`. The commands that they run, the environment and `filepath.Walk` are the record `Shell` of
--   Pass/Commands.
-- - cmd/keyring/main.go: the command line tool is in CommandLine, from the parsed flags to the text on
--   the standard output, as a client of `Open` and of the interface.
-- - keychain_macos.go, keychain_ios.go: Keychain has what the two share, Keychain/Mac and Keychain/Ios
--   the operations, Keychain/Opening how a keychain of macOS is opened and created, over the record
--   `Library` of Keychain/Library, which stands for github.com/byteness/go-keychain, Touch ID and the
--   terminal. An item of it is what its setters are called with, also where the library leaves out an
--   empty text. What is assumed of a keychain, `IsKeychain` of Keychain/Assumed, says nothing of items
--   that are synchronized; `IsSynchronizing` there does.
-- - winhello/ncrypt.go: the system calls behind the record of calls of WinHello/NCrypt are in
--   WinHello/NCrypt/System, over a record of the library's functions.
--
-- A Go function that returns a value and an error is a function into `Result`; one that acts on the
-- world is an `Exec W A`, from the state of the world to a result and the next state. A `defer` that
-- frees a handle is `finally`, an ignored error `ignore`, and where the code goes on after an error
-- the result is taken as a value by `attempt`. Strings and byte slices are lists of numbers. The
-- texts of errors keep their format and not the values printed into it. All loops but that of
-- `keyctlRead` are recursion on lists.
--
-- Not modelled: debug output, what the keychain of macOS prints for the user, and the parsing of
-- flags.
pub mod Prelude
pub mod Errors
pub mod Exec
pub mod Api
pub mod Open
pub mod Builds
pub mod Contract
pub mod CommandLine
pub mod Traces
pub mod Stored
pub mod Dict
pub mod Array
pub mod Credentials
pub mod WinCred
pub mod WinHello
pub mod KWallet
pub mod SecretService
pub mod Prompts
pub mod File
pub mod Pass
pub mod Keychain
pub mod KeyCtl
pub mod OnePassword
pub mod Tests
